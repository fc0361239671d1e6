-- ===== src/Wallet/Transfer.antt =====
-- shared/agent/wallet.py: where the money of a transfer goes.
use rg_agent_engine.Base.{ℕ, ◌≡◌, refl, true, Option, none, some, Key, ◌==◌, if◌then◌else◌, arith}
use rg_agent_engine.Base.Int.{ℤ, ◌-ℤ◌, ◌+ℤ◌}
use rg_agent_engine.Base.Dict.{get}
use rg_agent_engine.Base.Exec.{ok, err}
use rg_agent_engine.Wallet.Types.{AgentWallet, SpendResult}
use rg_agent_engine.Wallet.State.{AgentWalletSystem, Env}
use rg_agent_engine.Wallet.Spend.{Method, spend, give_to}
use rg_agent_engine.Wallet.Move.{
  credit_destination, credit_if_paid, move_funds, transfer_found, transfer, transfer_request,
}
use rg_agent_engine.Wallet.Manage.{get_balance}
use rg_agent_engine.Wallet.Effect.{Outcome, succeeded}
use rg_agent_engine.Wallet.Invariant.{IsWellFormed}
use rg_agent_engine.Wallet.Money.{
  continue, credit_if_paid_state, some_of, spend_keeps, spend-IsTaken, get_balance-put,
  get_balance-get, wallets-credit_destination,
}

balance-give_to : (x : ℤ) (now : ℕ) (w : AgentWallet) → (give_to x now w).balance ≡ w.balance +ℤ x
unfolding give_to
balance-give_to x now w = refl

credit_if_paid_success :
    (m : Method (Unit {0})) (result : SpendResult) (s : AgentWalletSystem)
    → succeeded (credit_if_paid m result s).0 ≡ true
    → result.success ≡ true
unfolding credit_if_paid
credit_if_paid_success m result s h = ground arith

module _ (id from_key to_key from_agent : Key) (amount : ℤ) (text : Key) (now : ℕ)
    (s : AgentWalletSystem) {w : AgentWallet} (found : get to_key s.wallets ≡ some w) where
  balance-credit_destination :
      (k : Key)
      → get_balance k (credit_destination id to_key from_key from_agent amount text now s).1
        ≡ (if to_key == k then get_balance k s +ℤ amount else get_balance k s)
  balance-credit_destination k =
      let s' = (credit_destination id to_key from_key from_agent amount text now s).1 in
      let w' = give_to amount now w in
      let e =
        get_balance-put to_key w' s s' k
          (wallets-credit_destination id from_key to_key from_agent amount text now s found) in
      ground (arith, e, get_balance-get to_key s found, balance-give_to amount now w)

module _ (id from_key to_key from_agent : Key) (amount : ℤ) (text : Key) (now : ℕ) where
  -- The outcome behind the spending: if it is a success the spending was one, and the destination
  -- has the amount more.
  balance-continue :
      (o : Outcome) {w : AgentWallet}
      → get to_key o.1.wallets ≡ some w
      → let m = credit_if_paid (credit_destination id to_key from_key from_agent amount text now) in
        succeeded (continue o m).0 ≡ true
        → (succeeded o.0 ≡ true)
          × ((k : Key)
              → get_balance k (continue o m).1
                ≡ (if to_key == k then get_balance k o.1 +ℤ amount else get_balance k o.1))
  unfolding continue
  balance-continue (err e, s) found h = cc
  balance-continue (ok result, s) found h =
      let credited = credit_destination id to_key from_key from_agent amount text now in
      let paid = credit_if_paid_success credited result s h in
      (
        paid,
        λ k.
            rw (credit_if_paid_state credited result s paid)
              (balance-credit_destination id from_key to_key from_agent amount text now s found k),
      )

-- The money of both ends: the source loses the amount and the destination gains it, where they are
-- one wallet both; every other balance is as before.
abbrev pub IsMoved : Key → Key → ℤ → AgentWalletSystem → AgentWalletSystem → Type 0
IsMoved from_key to_key amount s s' =
    (k : Key)
    → let left = if from_key == k then get_balance k s -ℤ amount else get_balance k s in
      get_balance k s' ≡ (if to_key == k then left +ℤ amount else left)

module _ (id credit_id from_key to_key : Key) (amount : ℤ) (text : Key) (env : Env)
    (s : AgentWalletSystem) (h : IsWellFormed s) where
  move_funds-IsMoved :
      (source target : AgentWallet)
      → get to_key s.wallets ≡ some target
      → let o = move_funds id credit_id from_key to_key amount text source target env s in
        succeeded o.0 ≡ true → IsMoved from_key to_key amount s o.1
  unfolding move_funds continue
  move_funds-IsMoved source target there done k =
      let r = transfer_request from_key to_key amount target.agent_id text in
      let o = spend id r env s in
      let (w, found) =
        some_of (get to_key o.1.wallets) (spend_keeps id r env s to_key h (ground arith)) in
      let (paid, moved) =
        balance-continue credit_id from_key to_key source.agent_id amount text env.now o found
          (ground (arith, done)) in
      ground (arith, moved k, paid, (spend-IsTaken id r env s h).1 k)

  transfer_found-IsMoved :
      (source target : Option AgentWallet)
      → get to_key s.wallets ≡ target
      → let o = transfer_found id credit_id from_key to_key amount text source target env s in
        succeeded o.0 ≡ true → IsMoved from_key to_key amount s o.1
  unfolding transfer_found
  transfer_found-IsMoved none target there done k = cc
  transfer_found-IsMoved (some source) none there done k = cc
  transfer_found-IsMoved (some source) (some target) there done k =
      let o = move_funds id credit_id from_key to_key amount text source target env s in
      ground (arith, λ (p : succeeded o.0 ≡ true). move_funds-IsMoved source target there p k)

  -- A transfer that reports success has moved exactly its amount from the source to the
  -- destination, also where the amount is negative; no other balance has changed.
  pub transfer-IsMoved :
      let o = transfer id credit_id from_key to_key amount text env s in
      succeeded o.0 ≡ true → IsMoved from_key to_key amount s o.1
  unfolding transfer
  transfer-IsMoved done =
      transfer_found-IsMoved (get from_key s.wallets) (get to_key s.wallets) refl done
