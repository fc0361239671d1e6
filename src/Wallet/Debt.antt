-- ===== src/Wallet/Debt.antt =====
-- shared/agent/wallet.py: the sign of the balances, call by call.
use rg_agent_engine.Base.{ℕ, ◌≡◌, refl, none, some, Key, arith, Bool-cases, Option-cases, inl, inr}
use rg_agent_engine.Base.Int.{ℤ, pos, ◌≤ℤ◌, ltb_ℤ, Limit}
use rg_agent_engine.Base.Dict.{get, put, get-nil, has_key}
use rg_agent_engine.Wallet.Types.{AgentWallet, WalletTransaction, Description, TransactionType}
use rg_agent_engine.Wallet.State.{
  AgentWalletSystem, Env, empty_system, maybe_reset_limits, write_wallet,
}
use rg_agent_engine.Wallet.Spend.{spend, take_from, give_to}
use rg_agent_engine.Wallet.Move.{credit_transaction}
use rg_agent_engine.Wallet.Manage.{
  create_wallet, add_wallet, new_wallet, credit, approve_from, approve_transaction,
  reject_transaction, freeze_wallet, unfreeze_wallet, get_remaining_daily_budget,
  is_pending_approval,
}
use rg_agent_engine.Wallet.Effect.{balance-maybe_reset}
use rg_agent_engine.Wallet.Invariant.{IsWellFormed, spend-SpendEffect}
use rg_agent_engine.Wallet.Money.{balance-take_from}
use rg_agent_engine.Wallet.Solvency.{
  IsSolvent, given-IsSolvent, transfer-IsSolvent, SpendEffect-IsSolvent, put-IsSolvent, take_fine,
  wallets-append,
}
use rg_agent_engine.Wallet.Reach.{
  Step, creates, spends, transfers, credits, approves, rejects, freezes, unfreezes, reads_budget,
  Step-IsWellFormed, empty-IsWellFormed, state-credit, approve_pending, state-approve,
}

create-IsSolvent :
    (id agent_id : Key) (initial : ℤ) (daily single monthly : Limit) (env : Env)
    (s : AgentWalletSystem)
    → pos 0 ≤ℤ initial
    → IsSolvent s.wallets
    → IsSolvent (create_wallet id agent_id initial daily single monthly env s).1.wallets
unfolding create_wallet add_wallet
create-IsSolvent id agent_id initial daily single monthly env s fair h =
    let w = new_wallet id agent_id initial daily single monthly env in
    elim (Bool-cases (has_key agent_id s.agent_wallets)) [
      | inl known ↦ rw (known, create_wallet) h
      | inr new ↦ rw (new, create_wallet) (put-IsSolvent id w s.wallets fair h)
    ]

credit-IsSolvent :
    (id k : Key) (amount : ℤ) (d : Description) (type : TransactionType) (now : ℕ)
    (s : AgentWalletSystem)
    → pos 0 ≤ℤ amount
    → IsSolvent s.wallets
    → IsSolvent (credit id k amount d type now s).1.wallets
unfolding write_wallet
credit-IsSolvent id k amount d type now s fair h = elim (Option-cases (get k s.wallets)) [
  | inl e ↦ unfold credit in rw (e, credit) h
  | inr (w, e) ↦
      let t = credit_transaction id k type amount d none now in
      rw
        (
          state-credit id k amount d type now s e,
          wallets-append k t (write_wallet k (give_to amount now w) s),
        )
        (given-IsSolvent k w amount now s.wallets fair e h)
]

approve_from-IsSolvent :
    (w : AgentWallet) (t : WalletTransaction) (who : Key) (now : ℕ) (s : AgentWalletSystem)
    → IsSolvent s.wallets
    → IsSolvent (approve_from w t who now s).1.wallets
unfolding approve_from write_wallet
approve_from-IsSolvent w t who now s h = elim (Bool-cases (ltb_ℤ w.balance t.amount)) [
  | inl short ↦ rw (short, approve_from) h
  | inr enough ↦
      let w' = take_from t.amount now w in
      rw (enough, approve_from)
        (put-IsSolvent t.wallet_id w' s.wallets
          (rw (balance-take_from t.amount now w) (take_fine t.amount w.balance enough)) h)
]

approve-IsSolvent :
    (id who : Key) (now : ℕ) (s : AgentWalletSystem)
    → IsSolvent s.wallets
    → IsSolvent (approve_transaction id who now s).1.wallets
unfolding approve_pending
approve-IsSolvent id who now s h = elim (Option-cases (get id s.transactions)) [
  | inl e ↦ unfold approve_transaction in rw (e, approve_transaction) h
  | inr (t, e) ↦ elim (Bool-cases (is_pending_approval t.status)) [
    | inr settled ↦ rw (state-approve id who now s t e, settled) h
    | inl waits ↦
        rw (state-approve id who now s t e, waits)
          (elim (Option-cases (get t.wallet_id s.wallets)) [
            | inl f ↦ rw (f, approve_pending) h
            | inr (w, f) ↦ rw (f, approve_pending) (approve_from-IsSolvent w t who now s h)
          ])
  ]
]

-- A wallet written back with its balance.
same-IsSolvent :
    (k : Key) (w w' : AgentWallet) (s : AgentWalletSystem)
    → get k s.wallets ≡ some w
    → w'.balance ≡ w.balance
    → IsSolvent s.wallets
    → IsSolvent (put k w' s.wallets)
same-IsSolvent k w w' s e same h = put-IsSolvent k w' s.wallets (rw same (h k w e)) h

freeze-IsSolvent :
    (k why who : Key) (now : ℕ) (s : AgentWalletSystem)
    → IsSolvent s.wallets
    → IsSolvent (freeze_wallet k why who now s).1.wallets
unfolding freeze_wallet write_wallet
freeze-IsSolvent k why who now s h = elim (Option-cases (get k s.wallets)) [
  | inl e ↦ rw (e, freeze_wallet) h
  | inr (w, e) ↦ rw (e, freeze_wallet) (same-IsSolvent k w _ s e refl h)
]

unfreeze-IsSolvent :
    (k : Key) (now : ℕ) (s : AgentWalletSystem)
    → IsSolvent s.wallets
    → IsSolvent (unfreeze_wallet k now s).1.wallets
unfolding unfreeze_wallet write_wallet
unfreeze-IsSolvent k now s h = elim (Option-cases (get k s.wallets)) [
  | inl e ↦ rw (e, unfreeze_wallet) h
  | inr (w, e) ↦ rw (e, unfreeze_wallet) (same-IsSolvent k w _ s e refl h)
]

budget-IsSolvent :
    (k : Key) (env : Env) (s : AgentWalletSystem)
    → IsSolvent s.wallets
    → IsSolvent (get_remaining_daily_budget k env s).1.wallets
unfolding get_remaining_daily_budget write_wallet
budget-IsSolvent k env s h = elim (Option-cases (get k s.wallets)) [
  | inl e ↦ rw (e, get_remaining_daily_budget) h
  | inr (w, e) ↦
      rw (e, get_remaining_daily_budget)
        (same-IsSolvent k w (maybe_reset_limits env w) s e (balance-maybe_reset env w) h)
]

wallets-reject :
    (id who why : Key) (s : AgentWalletSystem)
    → (reject_transaction id who why s).1.wallets ≡ s.wallets
unfolding reject_transaction
wallets-reject id who why s = ground arith

-- A wallet begins without a debt, and no negative amount is transferred or credited. The amount of
-- a spending or of an approved transaction is free.
abbrev pub IsFair : {s t : AgentWalletSystem} → Step s t → Type 0
IsFair (creates id agent_id initial daily single monthly env fresh) = pos 0 ≤ℤ initial
IsFair (transfers id credit_id from_key to_key amount text env) = pos 0 ≤ℤ amount
IsFair (credits id k amount d type now) = pos 0 ≤ℤ amount
IsFair _ = Unit

Step-IsSolvent :
    {s t : AgentWalletSystem} (step : Step s t)
    → IsFair step
    → IsWellFormed s
    → IsSolvent s.wallets
    → IsSolvent t.wallets
Step-IsSolvent {s} (creates id agent_id initial daily single monthly env fresh) fair ok' h =
    create-IsSolvent id agent_id initial daily single monthly env s fair h
Step-IsSolvent {s} (spends id r env) fair ok' h =
    SpendEffect-IsSolvent r env s (spend id r env s) (spend-SpendEffect id r env s ok') h
Step-IsSolvent {s} (transfers id credit_id from_key to_key amount text env) fair ok' h =
    transfer-IsSolvent id credit_id from_key to_key amount text env s ok' fair h
Step-IsSolvent {s} (credits id k amount d type now) fair ok' h =
    credit-IsSolvent id k amount d type now s fair h
Step-IsSolvent {s} (approves id who now) fair ok' h = approve-IsSolvent id who now s h
Step-IsSolvent {s} (rejects id who why) fair ok' h = rw (wallets-reject id who why s) h
Step-IsSolvent {s} (freezes k why who now) fair ok' h = freeze-IsSolvent k why who now s h
Step-IsSolvent {s} (unfreezes k now) fair ok' h = unfreeze-IsSolvent k now s h
Step-IsSolvent {s} (reads_budget k env) fair ok' h = budget-IsSolvent k env s h

-- The systems that fair calls lead to.
pub data FairReach (s : AgentWalletSystem) : AgentWalletSystem → Type 0 where
  begin : FairReach s s
  then_call :
      {t u : AgentWalletSystem} → FairReach s t → (step : Step t u) → IsFair step → FairReach s u

both :
    {s t : AgentWalletSystem}
    → FairReach s t
    → IsWellFormed s × IsSolvent s.wallets
    → IsWellFormed t × IsSolvent t.wallets
both begin h = h
both (then_call r step fair) h =
    let (ok', solvent) = both r h in
    (Step-IsWellFormed step ok', Step-IsSolvent step fair ok' solvent)

-- No wallet is ever in debt: in every system that calls of the methods lead to from an empty one,
-- where no wallet is created with a debt and no negative amount is transferred or credited, every
-- balance is zero or more.
pub FairReach-IsSolvent : {s : AgentWalletSystem} → FairReach empty_system s → IsSolvent s.wallets
FairReach-IsSolvent r = (both r (empty-IsWellFormed, unfold empty_system in λ k w e. get-nil k e)).1
