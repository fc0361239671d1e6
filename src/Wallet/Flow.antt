-- ===== src/Wallet/Flow.antt =====
-- shared/agent/wallet.py: transfers, and the tables.
use rg_agent_engine.Base.{
  ℕ, ◌≡◌, refl, Bool, true, false, Option, none, some, Key, if◌then◌else◌, arith, Bool-cases, inl,
  inr,
}
use rg_agent_engine.Base.Int.{ℤ}
use rg_agent_engine.Base.Dict.{get}
use rg_agent_engine.Base.Exec.{ok, err, pure}
use rg_agent_engine.Wallet.Types.{
  AgentWallet, SpendResult, recipient_blocked, recipient_not_approved,
}
use rg_agent_engine.Wallet.State.{AgentWalletSystem, Env, write_wallet}
use rg_agent_engine.Wallet.Spend.{Method, failure, spend, give_to}
use rg_agent_engine.Wallet.Move.{
  credit_destination, credit_if_paid, move_funds, transfer_found, transfer_request, is_blocked,
  is_unapproved,
}
use rg_agent_engine.Wallet.Effect.{Outcome}
use rg_agent_engine.Wallet.Invariant.{IsWellFormed, spend-IsWellFormed}
use rg_agent_engine.Wallet.Money.{continue, credit_if_paid_state}
use rg_agent_engine.Wallet.Lifecycle.{write_back-IsWellFormed, append_transaction-IsWellFormed}

credit_destination-IsWellFormed :
    (id to_key from_key from_agent : Key) (amount : ℤ) (text : Key) (now : ℕ)
    (s : AgentWalletSystem)
    → IsWellFormed s
    → IsWellFormed (credit_destination id to_key from_key from_agent amount text now s).1
unfolding credit_destination
credit_destination-IsWellFormed id to_key from_key from_agent amount text now s h =
    append_transaction-IsWellFormed _ _ _ (by_wallet (get to_key s.wallets) refl)
  where
    by_wallet :
        (o : Option AgentWallet)
        → get to_key s.wallets ≡ o
        → IsWellFormed (elim o [ none ↦ s | some w ↦ write_wallet to_key (give_to amount now w) s ])
    by_wallet none e = h
    by_wallet (some w) e = write_back-IsWellFormed to_key w (give_to amount now w) s h e refl refl

continue-IsWellFormed :
    (o : Outcome) (m : Method (Unit {0}))
    → IsWellFormed o.1
    → ((s : AgentWalletSystem) → IsWellFormed s → IsWellFormed (m s).1)
    → IsWellFormed (continue o (credit_if_paid m)).1
unfolding continue
continue-IsWellFormed (err e, s) m h keep = h
continue-IsWellFormed (ok result, s) m h keep = elim (Bool-cases result.success) [
  | inl paid ↦ rw (credit_if_paid_state m result s paid) (keep s h)
  | inr declined ↦ unfold credit_if_paid in simp declined h
]

IsWellFormed-if :
    (b : Bool) (m n : Method SpendResult) (s : AgentWalletSystem)
    → IsWellFormed (m s).1
    → IsWellFormed (n s).1
    → IsWellFormed ((if b then m else n) s).1
IsWellFormed-if true m n s hm hn = hm
IsWellFormed-if false m n s hm hn = hn

module _ (id credit_id from_key to_key : Key) (amount : ℤ) (text : Key) (env : Env)
    (s : AgentWalletSystem) where
  pub move_funds-continue :
      (source target : AgentWallet)
      → let r = transfer_request from_key to_key amount target.agent_id text in
        move_funds id credit_id from_key to_key amount text source target env s
        ≡ continue (spend id r env s) (
            credit_if_paid
              (credit_destination credit_id to_key from_key source.agent_id amount text env.now))
  unfolding move_funds continue
  move_funds-continue source target = ground arith

  pub transfer_found-IsWellFormed :
      (source target : Option AgentWallet)
      → IsWellFormed s
      → IsWellFormed (transfer_found id credit_id from_key to_key amount text source target env s).1
  unfolding transfer_found
  transfer_found-IsWellFormed none target h = h
  transfer_found-IsWellFormed (some source) none h = h
  transfer_found-IsWellFormed (some source) (some target) h =
      let r = transfer_request from_key to_key amount target.agent_id text in
      let credited =
        credit_destination credit_id to_key from_key source.agent_id amount text env.now in
      let moved : IsWellFormed
          (move_funds id credit_id from_key to_key amount text source target env s).1 =
        rw (move_funds-continue source target) (
          continue-IsWellFormed (spend id r env s) credited (spend-IsWellFormed id r env s h) (
            credit_destination-IsWellFormed credit_id to_key from_key source.agent_id amount text
              env.now)) in
      let m = move_funds id credit_id from_key to_key amount text source target env in
      let unapproved = is_unapproved to_key source env in
      let refuse = pure (failure recipient_not_approved) in
      IsWellFormed-if (is_blocked to_key source env) (pure (failure recipient_blocked))
        (if unapproved then refuse else m) s h (IsWellFormed-if unapproved refuse m s h moved)
