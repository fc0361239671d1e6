-- ===== src/Wallet/Money.antt =====
-- shared/agent/wallet.py: where the money goes in `spend` and `transfer`.
use rg_agent_engine.Base.{
  ℕ, ◌≡◌, ◌≢◌, refl, true, Option, none, some, [], ◌∷◌, Key, ◌==◌, ◌&&◌, if◌then◌else◌, arith,
  Bool-cases, inl, inr, ◌∙◌, sym, ap,
}
use rg_agent_engine.Base.Int.{
  ℤ, pos, ◌-ℤ◌, ◌+ℤ◌, int_laws, cancel_right, cancel_taken, cancel_given, take_give,
}
use rg_agent_engine.Base.Dict.{Dict, get, put, get-put, put-put}
use rg_agent_engine.Base.Exec.{ok, err}
use rg_agent_engine.Wallet.Types.{AgentWallet, SpendRequest, SpendResult}
use rg_agent_engine.Wallet.State.{AgentWalletSystem, Env, maybe_reset_limits}
use rg_agent_engine.Wallet.Spend.{Method, spend, take_from, give_to}
use rg_agent_engine.Wallet.Move.{
  credit_destination, credit_if_paid, move_funds, transfer_found, transfer, transfer_request,
}
use rg_agent_engine.Wallet.Manage.{get_balance}
use rg_agent_engine.Wallet.Effect.{
  SpendEffect, refused, declined, paid, Outcome, succeeded, balance-maybe_reset,
}
use rg_agent_engine.Wallet.Invariant.{IsWellFormed, spend-SpendEffect}

-- The sum of all balances.
abbrev pub total : Dict AgentWallet → ℤ
total [] = pos 0
total (e ∷ d) = e.1.balance +ℤ total d

pub total-put :
    (k : Key) (old new : AgentWallet) (d : Dict AgentWallet)
    → get k d ≡ some old
    → total (put k new d) +ℤ old.balance ≡ total d +ℤ new.balance
unfolding get put
total-put k old new [] h = cc
total-put k old new (e ∷ d) h = grind (int_laws, total-put k old new d)

-- A wallet's own money, by its key: what is taken is missing there and nowhere else.
abbrev pub IsTaken : Key → ℤ → AgentWalletSystem → Outcome → Type 0
IsTaken key amount s o =
    (total o.1.wallets ≡ (if succeeded o.0 then total s.wallets -ℤ amount else total s.wallets))
    × ((k : Key)
        → get_balance k o.1
          ≡ (if key == k && succeeded o.0 then get_balance k s -ℤ amount else get_balance k s))

pub get_balance-put :
    (key : Key) (new : AgentWallet) (s s' : AgentWalletSystem) (k : Key)
    → s'.wallets ≡ put key new s.wallets
    → get_balance k s' ≡ (if key == k then new.balance else get_balance k s)
unfolding get_balance
get_balance-put key new s s' k e = rw (e, get_balance) (ground (arith, get-put key k new s.wallets))

pub get_balance-get :
    (k : Key) (s : AgentWalletSystem) {w : AgentWallet}
    → get k s.wallets ≡ some w
    → get_balance k s ≡ w.balance
unfolding get_balance
get_balance-get k s e = rw (e, get_balance)

pub balance-take_from :
    (x : ℤ) (now : ℕ) (w : AgentWallet) → (take_from x now w).balance ≡ w.balance -ℤ x
unfolding take_from
balance-take_from x now w = refl

SpendEffect-IsTaken :
    (r : SpendRequest) (env : Env) (s : AgentWalletSystem) (o : Outcome)
    → SpendEffect r env s o
    → IsTaken r.wallet_id r.amount s o
SpendEffect-IsTaken r env s o (refused no' e) =
    (rw no' (rw e), λ k. unfold get_balance in rw no' (rw (e, get_balance) (ground arith)))
SpendEffect-IsTaken r env s o (declined w found no' e) =
    let w' = maybe_reset_limits env w in
    (
      rw no' (
          rw e (
            cancel_right _ _ _ _ (total-put r.wallet_id w w' s.wallets found)
              (sym (balance-maybe_reset env w)))),
      λ k. ground (
        arith,
        no',
        get_balance-put r.wallet_id w' s o.1 k e,
        balance-maybe_reset env w,
        get_balance-get r.wallet_id s found,
      ),
    )
SpendEffect-IsTaken r env s o (paid w found enough usable done e) =
    let w' = maybe_reset_limits env w in
    let w'' = take_from r.amount env.now w' in
    let e' = e ∙ put-put r.wallet_id w' w'' s.wallets in
    (
      rw done (
          rw e' (
            cancel_taken _ _ w.balance w''.balance r.amount
              (total-put r.wallet_id w w'' s.wallets found)
              (balance-take_from r.amount env.now w'
                ∙ ap (λ x. x -ℤ r.amount) (balance-maybe_reset env w)))),
      λ k. ground (
        arith,
        done,
        get_balance-put r.wallet_id w'' s o.1 k e',
        balance-maybe_reset env w,
        balance-take_from r.amount env.now w',
        get_balance-get r.wallet_id s found,
      ),
    )

-- Spending takes the amount from its wallet exactly if it reports success: then the balance of that
-- wallet and the sum of all balances fall by the amount. On every other path, a raise of the
-- approval callback included, no balance changes.
pub spend-IsTaken :
    (id : Key) (r : SpendRequest) (env : Env) (s : AgentWalletSystem)
    → IsWellFormed s
    → IsTaken r.wallet_id r.amount s (spend id r env s)
spend-IsTaken id r env s h =
    SpendEffect-IsTaken r env s (spend id r env s) (spend-SpendEffect id r env s h)

-- A wallet that was there before a spending is there behind it.
pub spend_keeps :
    (id : Key) (r : SpendRequest) (env : Env) (s : AgentWalletSystem) (k : Key)
    → IsWellFormed s
    → get k s.wallets ≢ none
    → get k (spend id r env s).1.wallets ≢ none
spend_keeps id r env s k h there = by_effect (spend-SpendEffect id r env s h)
  where
    by_effect : SpendEffect r env s (spend id r env s) → get k (spend id r env s).1.wallets ≢ none
    by_effect (refused no' e) = rw e there
    by_effect (declined w found no' e) =
        rw e (ground (arith, get-put r.wallet_id k (maybe_reset_limits env w) s.wallets))
    by_effect (paid w found enough usable done e) =
        let w' = maybe_reset_limits env w in
        let w'' = take_from r.amount env.now w' in
        rw (e ∙ put-put r.wallet_id w' w'' s.wallets)
          (ground (arith, get-put r.wallet_id k w'' s.wallets))

module _ (id from_key to_key from_agent : Key) (amount : ℤ) (text : Key) (now : ℕ)
    (s : AgentWalletSystem) {w : AgentWallet} (found : get to_key s.wallets ≡ some w) where
  pub wallets-credit_destination :
      (credit_destination id to_key from_key from_agent amount text now s).1.wallets
      ≡ put to_key (give_to amount now w) s.wallets
  unfolding credit_destination
  wallets-credit_destination = ground arith

  total-credit_destination :
      total (credit_destination id to_key from_key from_agent amount text now s).1.wallets
      ≡ total s.wallets +ℤ amount
  total-credit_destination = rw wallets-credit_destination (
      cancel_given _ _ w.balance (give_to amount now w).balance amount
        (total-put to_key w (give_to amount now w) s.wallets found) (unfold give_to in refl))

-- The rest of a transfer behind the outcome of its spending.
unfoldable pub continue : Outcome → (SpendResult → AgentWalletSystem → Outcome) → Outcome
continue (ok result, s) f = f result s
continue (err e, s) f = (err e, s)

pub credit_if_paid_state :
    (m : Method (Unit {0})) (result : SpendResult) (s : AgentWalletSystem)
    → result.success ≡ true
    → (credit_if_paid m result s).1 ≡ (m s).1
unfolding credit_if_paid
credit_if_paid_state m result s h = ground arith

pub some_of : {A : Type 0} (o : Option A) → o ≢ none → (a : A) × (o ≡ some a)
some_of none h = absurd (h refl)
some_of (some a) h = (a, refl)

module _ (id from_key to_key from_agent : Key) (amount : ℤ) (text : Key) (now : ℕ)
    (before : ℤ) where
  total-continue :
      (o : Outcome) {w : AgentWallet}
      → get to_key o.1.wallets ≡ some w
      → total o.1.wallets ≡ (if succeeded o.0 then before -ℤ amount else before)
      → total
          (continue o (
            credit_if_paid
              (credit_destination id to_key from_key from_agent amount text now))).1.wallets
        ≡ before
  unfolding continue
  total-continue (err e, s) found h = h
  total-continue (ok result, s) found h = elim (Bool-cases result.success) [
    | inl paid' ↦
        let credited = credit_destination id to_key from_key from_agent amount text now in
        rw (credit_if_paid_state credited result s paid') (
          total-credit_destination id from_key to_key from_agent amount text now s found
          ∙ ap (λ x. x +ℤ amount) (simp paid' at h)
          ∙ take_give before amount)
    | inr declined' ↦ unfold credit_if_paid in simp declined' (simp declined' at h)
  ]

module _ (id credit_id from_key to_key : Key) (amount : ℤ) (text : Key) (env : Env)
    (s : AgentWalletSystem) (h : IsWellFormed s) where
  total-move_funds :
      (source target : AgentWallet)
      → get to_key s.wallets ≡ some target
      → total (move_funds id credit_id from_key to_key amount text source target env s).1.wallets
        ≡ total s.wallets
  unfolding move_funds continue
  total-move_funds source target there =
      let r = transfer_request from_key to_key amount target.agent_id text in
      let o = spend id r env s in
      let (w, found) =
        some_of (get to_key o.1.wallets) (spend_keeps id r env s to_key h (ground arith)) in
      let t =
        total-continue credit_id from_key to_key source.agent_id amount text env.now
          (total s.wallets) o found (spend-IsTaken id r env s h).0 in
      ground (arith, t)

  total-transfer_found :
      (source target : Option AgentWallet)
      → get to_key s.wallets ≡ target
      → total
          (transfer_found id credit_id from_key to_key amount text source target env s).1.wallets
        ≡ total s.wallets
  unfolding transfer_found
  total-transfer_found none target there = refl
  total-transfer_found (some source) none there = refl
  total-transfer_found (some source) (some target) there =
      ground (arith, total-move_funds source target there)

  -- A transfer keeps the sum of all balances: whether it succeeds, is refused or declined, asks for
  -- approval or ends in a raise, between two wallets or within one, for an amount of either sign.
  pub total-transfer :
      total (transfer id credit_id from_key to_key amount text env s).1.wallets ≡ total s.wallets
  unfolding transfer
  total-transfer = total-transfer_found (get from_key s.wallets) (get to_key s.wallets) refl
