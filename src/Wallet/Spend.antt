-- ===== src/Wallet/Spend.antt =====
-- shared/agent/wallet.py: `spend`, with the records and the transaction that it makes.
use rg_agent_engine.Base.{ℕ, true, false, Option, none, some, Key, ◌||◌, if◌then◌else◌, not}
use rg_agent_engine.Base.Int.{ℤ, ◌-ℤ◌, ◌+ℤ◌, ltb_ℤ, Limit, min_limit, exceeds}
use rg_agent_engine.Base.Dict.{get, put}
use rg_agent_engine.Base.Exec.{Exec, Result, ok, ◌>>=◌, ◌>>◌, pure, modify}
use rg_agent_engine.Autonomy.{AutonomyMode, unbounded, governed, GovernedModeConfig, get_mode}
use rg_agent_engine.Wallet.Types.{
  WalletTransaction, AgentWallet, SpendRequest, SpendResult, SpendError, WalletException,
  Description, pending_approval, completed, wallet_not_found, unavailable, insufficient_balance,
  above_limit, daily_exceeded, monthly_exceeded,
}
use rg_agent_engine.Wallet.State.{
  AgentWalletSystem, Env, maybe_reset_limits, write_wallet, create_transaction,
}

abbrev pub Method : Type 0 → Type 0
Method A = Exec WalletException AgentWalletSystem A

-- `SpendResult(success=False, error=...)`
abbrev pub failure : SpendError → SpendResult
failure e = record {
  success = false;
  transaction = none;
  error = some e;
  requires_approval = false;
  approval_id = none;
}

abbrev pub success_with : WalletTransaction → SpendResult
success_with t = record {
  success = true;
  transaction = some t;
  error = none;
  requires_approval = false;
  approval_id = none;
}

-- The transaction object is shared with the table, so an assignment to its field writes there.
abbrev pub store : WalletTransaction → AgentWalletSystem → AgentWalletSystem
store t s = record s { transactions = put t.id t s.transactions }

-- `wallet.balance -= amount` and the four lines below it
unfoldable pub take_from : ℤ → ℕ → AgentWallet → AgentWallet
take_from amount now w = record w {
  balance = w.balance -ℤ amount;
  daily_spent = w.daily_spent +ℤ amount;
  monthly_spent = w.monthly_spent +ℤ amount;
  total_spent = w.total_spent +ℤ amount;
  updated_at = now;
}

-- `wallet.balance += amount` and the two lines below it
unfoldable pub give_to : ℤ → ℕ → AgentWallet → AgentWallet
give_to amount now w = record w {
  balance = w.balance +ℤ amount;
  total_earned = w.total_earned +ℤ amount;
  updated_at = now;
}

unfoldable pub execute_spend : Key → AgentWallet → SpendRequest → Env → Method SpendResult
unfolding create_transaction take_from write_wallet
execute_spend id w r env = do
  t ← create_transaction id w r completed env.now
  modify (write_wallet r.wallet_id (take_from r.amount env.now w))
  let t' = record t { completed_at = some env.now }
  modify (store t')
  pure (success_with t')

-- `if self.approval_callback: await ...`
abbrev ask_callback :
    Option (Key → ℤ → Description → Result WalletException (Option Key))
    → Key
    → SpendRequest
    → Method (Option Key)
ask_callback none agent_id r s = (ok none, s)
ask_callback (some callback) agent_id r s = (callback agent_id r.amount r.description, s)

unfoldable pub request_approval :
    Key → AgentWallet → SpendRequest → Limit → Env → Method SpendResult
unfolding create_transaction
request_approval id w r limit env = do
  t ← create_transaction id w r pending_approval env.now
  let t' = record t { requires_approval = true }
  modify (store t')
  approval_id ← ask_callback env.approval_callback w.agent_id r
  let t'' = record t' { approval_id = approval_id }
  modify (store t'')
  pure (record {
    success = false;
    transaction = some t'';
    error = some (above_limit r.amount limit);
    requires_approval = true;
    approval_id = approval_id;
  })

-- The checks of the governed mode, and the transaction behind them. The wallet's limits are reset.
unfoldable pub spend_governed :
    Key → AgentWallet → SpendRequest → GovernedModeConfig → Env → Method SpendResult
unfolding execute_spend request_approval
spend_governed id w r config env =
    let limit = min_limit w.transaction_limit config.transaction_limit in
    if exceeds r.amount limit
    then request_approval id w r limit env
    else if exceeds (w.daily_spent +ℤ r.amount) config.max_budget_per_day
    then pure (failure (daily_exceeded config.max_budget_per_day))
    else if exceeds (w.monthly_spent +ℤ r.amount) config.max_budget_per_month
    then pure (failure (monthly_exceeded config.max_budget_per_month))
    else execute_spend id w r env

unfoldable pub spend_as : AutonomyMode → Key → AgentWallet → SpendRequest → Env → Method SpendResult
unfolding spend_governed execute_spend
spend_as unbounded id w r env = execute_spend id w r env
spend_as governed id w r env = spend_governed id w r env.manager.governed_config env

unfoldable pub spend_found : Option AgentWallet → Key → SpendRequest → Env → Method SpendResult
unfolding spend_as maybe_reset_limits write_wallet
spend_found none id r env = pure (failure wallet_not_found)
spend_found (some w) id r env =
    if not w.is_active || w.is_frozen
    then pure (failure (unavailable w.is_frozen w.frozen_reason))
    else if ltb_ℤ w.balance r.amount
    then pure (failure insufficient_balance)
    else do
      let w' = maybe_reset_limits env w
      modify (write_wallet r.wallet_id w')
      spend_as (get_mode w'.agent_id env.manager) id w' r env

-- `spend`; `id` is the id of the new transaction.
unfoldable pub spend : Key → SpendRequest → Env → Method SpendResult
unfolding spend_found
spend id r env s = spend_found (get r.wallet_id s.wallets) id r env s
