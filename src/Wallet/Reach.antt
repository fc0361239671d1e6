-- ===== src/Wallet/Reach.antt =====
-- shared/agent/wallet.py: the systems that calls of the methods can reach.
use rg_agent_engine.Base.{
  ℕ, ◌≡◌, refl, Option, none, some, Key, if◌then◌else◌, arith, Bool-cases, Option-cases, inl, inr,
}
use rg_agent_engine.Base.Int.{ℤ, Limit, ltb_ℤ}
use rg_agent_engine.Base.Dict.{get, has_key, get-nil}
use rg_agent_engine.Wallet.Types.{
  AgentWallet, WalletTransaction, SpendRequest, SpendResult, Description, TransactionType, failed,
  completed, wallet_not_found,
}
use rg_agent_engine.Wallet.State.{
  AgentWalletSystem, Env, maybe_reset_limits, write_wallet, append_transaction, empty_system,
}
use rg_agent_engine.Wallet.Spend.{failure, spend, take_from, give_to}
use rg_agent_engine.Wallet.Move.{transfer, credit_transaction}
use rg_agent_engine.Wallet.Manage.{
  create_wallet, new_wallet, credit, approve_from, approve_transaction, reject_transaction,
  freeze_wallet, unfreeze_wallet, get_remaining_daily_budget, is_pending_approval,
}
use rg_agent_engine.Wallet.Effect.{id-maybe_reset, agent-maybe_reset}
use rg_agent_engine.Wallet.Invariant.{IsWellFormed, spend-IsWellFormed, unchanged-IsWellFormed}
use rg_agent_engine.Wallet.Lifecycle.{
  add_wallet-IsWellFormed, write_back-IsWellFormed, store-IsWellFormed,
  append_transaction-IsWellFormed,
}
use rg_agent_engine.Wallet.Flow.{transfer_found-IsWellFormed}

-- One call of a method; the id of a new wallet is not in use.
pub data Step (s : AgentWalletSystem) : AgentWalletSystem → Type 0 where
  creates :
      (id agent_id : Key) (initial : ℤ) (daily per_transaction monthly : Limit) (env : Env)
      → get id s.wallets ≡ none
      → Step s (create_wallet id agent_id initial daily per_transaction monthly env s).1
  spends : (id : Key) (r : SpendRequest) (env : Env) → Step s (spend id r env s).1
  transfers :
      (id credit_id from_key to_key : Key) (amount : ℤ) (text : Key) (env : Env)
      → Step s (transfer id credit_id from_key to_key amount text env s).1
  credits :
      (id wallet_id : Key) (amount : ℤ) (d : Description) (t : TransactionType) (now : ℕ)
      → Step s (credit id wallet_id amount d t now s).1
  approves : (id who : Key) (now : ℕ) → Step s (approve_transaction id who now s).1
  rejects : (id who why : Key) → Step s (reject_transaction id who why s).1
  freezes : (k why who : Key) (now : ℕ) → Step s (freeze_wallet k why who now s).1
  unfreezes : (k : Key) (now : ℕ) → Step s (unfreeze_wallet k now s).1
  reads_budget : (k : Key) (env : Env) → Step s (get_remaining_daily_budget k env s).1

create_wallet-IsWellFormed :
    (id agent_id : Key) (initial : ℤ) (daily per_transaction monthly : Limit) (env : Env)
    (s : AgentWalletSystem)
    → get id s.wallets ≡ none
    → IsWellFormed s
    → IsWellFormed (create_wallet id agent_id initial daily per_transaction monthly env s).1
unfolding create_wallet
create_wallet-IsWellFormed id agent_id initial daily per_transaction monthly env s fresh h =
    let w = new_wallet id agent_id initial daily per_transaction monthly env in
    elim (Bool-cases (has_key agent_id s.agent_wallets)) [
      | inl known ↦ rw (known, create_wallet) h
      | inr new ↦ rw (new, create_wallet) (add_wallet-IsWellFormed w s h fresh)
    ]

pub state-credit :
    (id k : Key) (amount : ℤ) (d : Description) (type : TransactionType) (now : ℕ)
    (s : AgentWalletSystem) {w : AgentWallet}
    → get k s.wallets ≡ some w
    → (credit id k amount d type now s).1
      ≡ (append_transaction k
          (credit_transaction id k type amount d none now)
          (write_wallet k (give_to amount now w) s)).1
unfolding credit
state-credit id k amount d type now s e = ground arith

credit-IsWellFormed :
    (id k : Key) (amount : ℤ) (d : Description) (type : TransactionType) (now : ℕ)
    (s : AgentWalletSystem)
    → IsWellFormed s
    → IsWellFormed (credit id k amount d type now s).1
credit-IsWellFormed id k amount d type now s h = elim (Option-cases (get k s.wallets)) [
  | inl e ↦ unfold credit in rw (e, credit) h
  | inr (w, e) ↦ rw (state-credit id k amount d type now s e) (
      append_transaction-IsWellFormed k (credit_transaction id k type amount d none now)
        (write_wallet k (give_to amount now w) s)
        (write_back-IsWellFormed k w (give_to amount now w) s h e (unfold give_to in refl)
          (unfold give_to in refl)))
]

approve_from-IsWellFormed :
    (w : AgentWallet) (t : WalletTransaction) (who : Key) (now : ℕ) (s : AgentWalletSystem)
    → get t.wallet_id s.wallets ≡ some w
    → IsWellFormed s
    → IsWellFormed (approve_from w t who now s).1
unfolding approve_from
approve_from-IsWellFormed w t who now s e h = elim (Bool-cases (ltb_ℤ w.balance t.amount)) [
  | inl short ↦ rw (short, approve_from) (store-IsWellFormed (record t { status = failed }) s h)
  | inr enough ↦
      let t' = record t { status = completed; approved_by = some who; completed_at = some now } in
      let w' = take_from t.amount now w in
      rw (enough, approve_from)
        (store-IsWellFormed t' (write_wallet t.wallet_id w' s)
          (write_back-IsWellFormed t.wallet_id w w' s h e refl refl))
]

unfoldable pub approve_pending :
    Option AgentWallet
    → WalletTransaction
    → Key
    → ℕ
    → AgentWalletSystem
    → SpendResult × AgentWalletSystem
approve_pending none t who now s = (failure wallet_not_found, s)
approve_pending (some w) t who now s = approve_from w t who now s

approve_pending-IsWellFormed :
    (o : Option AgentWallet) (t : WalletTransaction) (who : Key) (now : ℕ) (s : AgentWalletSystem)
    → get t.wallet_id s.wallets ≡ o
    → IsWellFormed s
    → IsWellFormed (approve_pending o t who now s).1
unfolding approve_pending
approve_pending-IsWellFormed none t who now s e h = h
approve_pending-IsWellFormed (some w) t who now s e h = approve_from-IsWellFormed w t who now s e h

pub state-approve :
    (id who : Key) (now : ℕ) (s : AgentWalletSystem) (t : WalletTransaction)
    → get id s.transactions ≡ some t
    → (approve_transaction id who now s).1 ≡ (
        if is_pending_approval t.status
        then (approve_pending (get t.wallet_id s.wallets) t who now s).1
        else s)
unfolding approve_transaction approve_pending
state-approve id who now s t e = ground arith

approve-IsWellFormed :
    (id who : Key) (now : ℕ) (s : AgentWalletSystem)
    → IsWellFormed s
    → IsWellFormed (approve_transaction id who now s).1
approve-IsWellFormed id who now s h = elim (Option-cases (get id s.transactions)) [
  | inl e ↦ unfold approve_transaction in rw (e, approve_transaction) h
  | inr (t, e) ↦ elim (Bool-cases (is_pending_approval t.status)) [
    | inl waits ↦
        rw (state-approve id who now s t e, waits)
          (approve_pending-IsWellFormed (get t.wallet_id s.wallets) t who now s refl h)
    | inr settled ↦ rw (state-approve id who now s t e, settled) h
  ]
]

reject-IsWellFormed :
    (id who why : Key) (s : AgentWalletSystem)
    → IsWellFormed s
    → IsWellFormed (reject_transaction id who why s).1
reject-IsWellFormed id who why s h =
    unchanged-IsWellFormed s (reject_transaction id who why s).1 h
      (unfold reject_transaction in ground arith)
      (record {
        agents = unfold reject_transaction in ground arith;
        lists = λ k l. unfold reject_transaction in ground arith;
      })

freeze-IsWellFormed :
    (k why who : Key) (now : ℕ) (s : AgentWalletSystem)
    → IsWellFormed s
    → IsWellFormed (freeze_wallet k why who now s).1
freeze-IsWellFormed k why who now s h = elim (Option-cases (get k s.wallets)) [
  | inl e ↦ unfold freeze_wallet in rw (e, freeze_wallet) h
  | inr (w, e) ↦
      unfold freeze_wallet in rw (e, freeze_wallet) (write_back-IsWellFormed k w _ s h e refl refl)
]

unfreeze-IsWellFormed :
    (k : Key) (now : ℕ) (s : AgentWalletSystem)
    → IsWellFormed s
    → IsWellFormed (unfreeze_wallet k now s).1
unfreeze-IsWellFormed k now s h = elim (Option-cases (get k s.wallets)) [
  | inl e ↦ unfold unfreeze_wallet in rw (e, unfreeze_wallet) h
  | inr (w, e) ↦
      unfold unfreeze_wallet in
      rw (e, unfreeze_wallet) (write_back-IsWellFormed k w _ s h e refl refl)
]

reads_budget-IsWellFormed :
    (k : Key) (env : Env) (s : AgentWalletSystem)
    → IsWellFormed s
    → IsWellFormed (get_remaining_daily_budget k env s).1
reads_budget-IsWellFormed k env s h = elim (Option-cases (get k s.wallets)) [
  | inl e ↦ unfold get_remaining_daily_budget in rw (e, get_remaining_daily_budget) h
  | inr (w, e) ↦
      unfold get_remaining_daily_budget in
      rw (e, get_remaining_daily_budget)
        (write_back-IsWellFormed k w (maybe_reset_limits env w) s h e (id-maybe_reset env w)
          (agent-maybe_reset env w))
]

pub Step-IsWellFormed : {s t : AgentWalletSystem} → Step s t → IsWellFormed s → IsWellFormed t
Step-IsWellFormed {s} (creates id agent_id initial daily per_transaction monthly env fresh) h =
    create_wallet-IsWellFormed id agent_id initial daily per_transaction monthly env s fresh h
Step-IsWellFormed {s} (spends id r env) h = spend-IsWellFormed id r env s h
Step-IsWellFormed {s} (transfers id credit_id from_key to_key amount text env) h =
    unfold transfer in
    transfer_found-IsWellFormed id credit_id from_key to_key amount text env s
      (get from_key s.wallets) (get to_key s.wallets) h
Step-IsWellFormed {s} (credits id k amount d type now) h =
    credit-IsWellFormed id k amount d type now s h
Step-IsWellFormed {s} (approves id who now) h = approve-IsWellFormed id who now s h
Step-IsWellFormed {s} (rejects id who why) h = reject-IsWellFormed id who why s h
Step-IsWellFormed {s} (freezes k why who now) h = freeze-IsWellFormed k why who now s h
Step-IsWellFormed {s} (unfreezes k now) h = unfreeze-IsWellFormed k now s h
Step-IsWellFormed {s} (reads_budget k env) h = reads_budget-IsWellFormed k env s h

pub data Reach (s : AgentWalletSystem) : AgentWalletSystem → Type 0 where
  here : Reach s s
  next : {t u : AgentWalletSystem} → Reach s t → Step t u → Reach s u

pub empty-IsWellFormed : IsWellFormed empty_system
unfolding empty_system
empty-IsWellFormed = record {
  own_id = λ k w e. get-nil k e;
  listed = λ k w e. get-nil k e;
  owned = λ a k e. get-nil a e;
}

Reach-preserves : {s t : AgentWalletSystem} → Reach s t → IsWellFormed s → IsWellFormed t
Reach-preserves here h = h
Reach-preserves (next r step) h = Step-IsWellFormed step (Reach-preserves r h)

-- In every system that calls of the methods lead to from an empty one, the tables fit together:
-- each wallet stands under its own id and has a list of transactions, and the wallet that an agent
-- is registered with exists and is that agent's.
pub Reach-IsWellFormed : {s : AgentWalletSystem} → Reach empty_system s → IsWellFormed s
Reach-IsWellFormed r = Reach-preserves r empty-IsWellFormed
