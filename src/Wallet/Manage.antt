-- ===== src/Wallet/Manage.antt =====
-- shared/agent/wallet.py: creation, credit, approval, freezing and the queries.
use rg_agent_engine.Base.{
  ℕ, Bool, true, false, Option, none, some, List, [], ◌∷◌, Key, is_empty, if◌then◌else◌, not,
}
use rg_agent_engine.Base.Int.{ℤ, pos, ltb_ℤ, Limit, infinite, finite, left_under}
use rg_agent_engine.Base.Lists.{keep_if, last_items}
use rg_agent_engine.Base.Dict.{get, get_or, put, has_key}
use rg_agent_engine.Base.Exec.{ok, err, ◌>>◌, pure, modify}
use rg_agent_engine.Autonomy.{AutonomyMode, unbounded, governed, get_mode}
use rg_agent_engine.Wallet.Types.{
  WalletTransaction, AgentWallet, SpendResult, already_has_wallet, no_such_wallet, TransactionType,
  Description, TransactionStatus, pending_approval, pending, completed, failed, reversed, rejected,
  wallet_not_found, insufficient_balance, transaction_not_found, not_pending,
}
use rg_agent_engine.Wallet.State.{
  AgentWalletSystem, Env, maybe_reset_limits, write_wallet, append_transaction,
}
use rg_agent_engine.Wallet.Spend.{Method, failure, success_with, store, take_from, give_to}
use rg_agent_engine.Wallet.Move.{credit_transaction, update_wallet}

abbrev pub new_wallet : Key → Key → ℤ → Limit → Limit → Limit → Env → AgentWallet
new_wallet id agent_id initial daily per_transaction monthly env = record {
  id = id;
  agent_id = agent_id;
  balance = initial;
  daily_limit = daily;
  transaction_limit = per_transaction;
  monthly_limit = monthly;
  daily_spent = pos 0;
  monthly_spent = pos 0;
  total_spent = pos 0;
  total_earned = pos 0;
  last_daily_reset = env.today;
  last_monthly_reset = env.this_month;
  approved_recipients = [];
  blocked_recipients = [];
  is_active = true;
  is_frozen = false;
  frozen_reason = none;
  created_at = env.now;
  updated_at = env.now;
}

-- The three tables that `create_wallet` writes.
unfoldable pub add_wallet : AgentWallet → AgentWalletSystem → AgentWalletSystem
unfolding write_wallet
add_wallet w s = record s {
  wallets = put w.id w s.wallets;
  agent_wallets = put w.agent_id w.id s.agent_wallets;
  wallet_transactions = put w.id [] s.wallet_transactions;
}

unfoldable pub create_wallet : Key → Key → ℤ → Limit → Limit → Limit → Env → Method AgentWallet
unfolding add_wallet
create_wallet id agent_id initial daily per_transaction monthly env s =
    let w = new_wallet id agent_id initial daily per_transaction monthly env in
    if has_key agent_id s.agent_wallets then (err already_has_wallet, s) else (ok w, add_wallet w s)

unfoldable pub get_wallet : Key → AgentWalletSystem → Option AgentWallet
get_wallet wallet_id s = get wallet_id s.wallets

unfoldable pub get_wallet_by_agent : Key → AgentWalletSystem → Option AgentWallet
get_wallet_by_agent agent_id s = elim (get agent_id s.agent_wallets) [
  | none ↦ none
  | some wallet_id ↦ if is_empty wallet_id then none else get wallet_id s.wallets
]

abbrev dollars : ℕ → Limit
dollars n = finite (pos n)

unfoldable pub get_or_create_wallet : Key → Key → Env → Method AgentWallet
unfolding create_wallet get_wallet_by_agent
get_or_create_wallet id agent_id env s = elim (get_wallet_by_agent agent_id s) [
  | none ↦ create_wallet id agent_id (pos 0) (dollars 100) (dollars 50) (dollars 1000) env s
  | some w ↦ (ok w, s)
]

unfoldable pub credit : Key → Key → ℤ → Description → TransactionType → ℕ → Method WalletTransaction
unfolding update_wallet give_to append_transaction
credit id wallet_id amount description type now s = elim (get wallet_id s.wallets) [
  | none ↦ (err no_such_wallet, s)
  | some w ↦
      (do
        let t = credit_transaction id wallet_id type amount description none now
        modify (write_wallet wallet_id (give_to amount now w))
        append_transaction wallet_id t
        pure t)
        s
]

abbrev pub is_pending_approval : TransactionStatus → Bool
is_pending_approval pending_approval = true
is_pending_approval _ = false

-- The execution of a pending transaction, its wallet found.
unfoldable pub approve_from :
    AgentWallet → WalletTransaction → Key → ℕ → AgentWalletSystem → SpendResult × AgentWalletSystem
unfolding take_from write_wallet
approve_from w t approver_id now s =
    if ltb_ℤ w.balance t.amount
    then (failure insufficient_balance, store (record t { status = failed }) s)
    else let t' = record t {
      status = completed;
      approved_by = some approver_id;
      completed_at = some now;
    } in
      (success_with t', store t' (write_wallet t.wallet_id (take_from t.amount now w) s))

unfoldable pub approve_transaction :
    Key → Key → ℕ → AgentWalletSystem → SpendResult × AgentWalletSystem
unfolding approve_from
approve_transaction transaction_id approver_id now s = elim (get transaction_id s.transactions) [
  | none ↦ (failure transaction_not_found, s)
  | some t ↦
      if not (is_pending_approval t.status)
      then (failure not_pending, s)
      else elim (get t.wallet_id s.wallets) [
        | none ↦ (failure wallet_not_found, s)
        | some w ↦ approve_from w t approver_id now s
      ]
]

unfoldable pub reject_transaction :
    Key → Key → Key → AgentWalletSystem → SpendResult × AgentWalletSystem
reject_transaction transaction_id rejector_id why s = elim (get transaction_id s.transactions) [
  | none ↦ (failure transaction_not_found, s)
  | some t ↦
      if not (is_pending_approval t.status)
      then (failure not_pending, s)
      else let t' = record t { status = rejected; rejection = some (why, rejector_id) } in
        (success_with t', store t' s)
]

unfoldable pub freeze_wallet : Key → Key → Key → ℕ → AgentWalletSystem → Bool × AgentWalletSystem
unfolding write_wallet
freeze_wallet wallet_id why frozen_by now s = elim (get wallet_id s.wallets) [
  | none ↦ (false, s)
  | some w ↦
      let w' = record w {
        is_frozen = true;
        frozen_reason = some (why, frozen_by);
        updated_at = now;
      } in
      (true, write_wallet wallet_id w' s)
]

unfoldable pub unfreeze_wallet : Key → ℕ → AgentWalletSystem → Bool × AgentWalletSystem
unfolding write_wallet
unfreeze_wallet wallet_id now s = elim (get wallet_id s.wallets) [
  | none ↦ (false, s)
  | some w ↦
      let w' = record w { is_frozen = false; frozen_reason = none; updated_at = now } in
      (true, write_wallet wallet_id w' s)
]

-- `[self._transactions[tid] for tid in ids if tid in self._transactions]`
abbrev pub collect : List Key → AgentWalletSystem → List WalletTransaction
collect [] s = []
collect (id ∷ ids) s = elim (get id s.transactions) [
  | none ↦ collect ids s
  | some t ↦ t ∷ collect ids s
]

abbrev pub same_status : TransactionStatus → TransactionStatus → Bool
same_status pending pending = true
same_status pending_approval pending_approval = true
same_status completed completed = true
same_status failed failed = true
same_status reversed reversed = true
same_status rejected rejected = true
same_status _ _ = false

unfoldable pub get_transactions :
    Key → ℕ → Option TransactionStatus → AgentWalletSystem → List WalletTransaction
get_transactions wallet_id limit status s =
    let found = collect (get_or wallet_id [] s.wallet_transactions) s in
    last_items limit
      (elim status [ none ↦ found | some x ↦ keep_if (λ t. same_status t.status x) found ])

unfoldable pub get_balance : Key → AgentWalletSystem → ℤ
get_balance wallet_id s = elim (get wallet_id s.wallets) [ none ↦ pos 0 | some w ↦ w.balance ]

abbrev remaining_as : AutonomyMode → AgentWallet → Env → Limit
remaining_as unbounded w env = infinite
remaining_as governed w env =
    left_under env.manager.governed_config.max_budget_per_day w.daily_spent

-- Asking for the remaining budget resets the counters of a new day.
unfoldable pub get_remaining_daily_budget :
    Key → Env → AgentWalletSystem → Limit × AgentWalletSystem
unfolding maybe_reset_limits write_wallet
get_remaining_daily_budget wallet_id env s = elim (get wallet_id s.wallets) [
  | none ↦ (finite (pos 0), s)
  | some w ↦
      let w' = maybe_reset_limits env w in
      (remaining_as (get_mode w.agent_id env.manager) w' env, write_wallet wallet_id w' s)
]
