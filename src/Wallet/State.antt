-- ===== src/Wallet/State.antt =====
-- shared/agent/wallet.py: the state of `AgentWalletSystem`, the environment of a call, and the two
-- private helpers.
use rg_agent_engine.Base.{
  ℕ, false, Option, none, some, List, [], ◌∷◌, ◌++◌, Key, ◌==◌, is_empty, if◌then◌else◌,
}
use rg_agent_engine.Base.Int.{ℤ, pos}
use rg_agent_engine.Base.Dict.{Dict, get, put}
use rg_agent_engine.Base.Exec.{Exec, Result, ok, err, ◌>>◌, pure}
use rg_agent_engine.Autonomy.{AutonomyModeManager}
use rg_agent_engine.Wallet.Types.{
  WalletTransaction, AgentWallet, SpendRequest, WalletException, key_error, debit, transfer_out,
  TransactionType, TransactionStatus, Description,
}

pub record AgentWalletSystem : Type 0 where
  pub wallets : Dict AgentWallet
  pub agent_wallets : Dict Key
  pub transactions : Dict WalletTransaction
  pub wallet_transactions : Dict (List Key)

unfoldable pub empty_system : AgentWalletSystem
empty_system = record {
  wallets = [];
  agent_wallets = [];
  transactions = [];
  wallet_transactions = [];
}

-- What a call finds around it. The callback is given the agent, the amount and the description, and
-- returns an approval id or None, or raises; it does not touch the wallets.
pub record Env : Type 0 where
  pub manager : AutonomyModeManager
  pub approval_callback : Option (Key → ℤ → Description → Result WalletException (Option Key))
  pub now : ℕ
  pub today : ℕ
  pub this_month : ℕ

-- `_maybe_reset_limits`
unfoldable pub reset_daily : ℕ → AgentWallet → AgentWallet
reset_daily today w =
    if w.last_daily_reset == today
    then w
    else record w { daily_spent = pos 0; last_daily_reset = today }

unfoldable pub reset_monthly : ℕ → AgentWallet → AgentWallet
reset_monthly this_month w =
    if w.last_monthly_reset == this_month
    then w
    else record w { monthly_spent = pos 0; last_monthly_reset = this_month }

unfoldable pub maybe_reset_limits : Env → AgentWallet → AgentWallet
unfolding reset_daily reset_monthly
maybe_reset_limits env w = reset_monthly env.this_month (reset_daily env.today w)

unfoldable pub write_wallet : Key → AgentWallet → AgentWalletSystem → AgentWalletSystem
write_wallet k w s = record s { wallets = put k w s.wallets }

-- `TRANSFER_OUT if request.recipient_wallet_id else DEBIT`
abbrev pub spend_type : Option Key → TransactionType
spend_type none = debit
spend_type (some k) = if is_empty k then debit else transfer_out

abbrev pub new_transaction : Key → Key → SpendRequest → TransactionStatus → ℕ → WalletTransaction
new_transaction id wallet_id r status now = record {
  id = id;
  wallet_id = wallet_id;
  type = spend_type r.recipient_wallet_id;
  amount = r.amount;
  description = r.description;
  counterparty_wallet_id = r.recipient_wallet_id;
  status = status;
  requires_approval = false;
  approval_id = none;
  approved_by = none;
  created_at = now;
  completed_at = none;
  rejection = none;
}

-- `self._transactions[t.id] = t; self._wallet_transactions[wallet_id].append(t.id)`: the first
-- write stays where the second raises a KeyError.
unfoldable pub append_transaction :
    Key → WalletTransaction → Exec WalletException AgentWalletSystem (Unit {0})
append_transaction wallet_id t s =
    let s' = record s { transactions = put t.id t s.transactions } in
    elim (get wallet_id s.wallet_transactions) [
      | none ↦ (err (key_error wallet_id), s')
      | some ids ↦ (
        ok tt,
        record s' { wallet_transactions = put wallet_id (ids ++ t.id ∷ []) s.wallet_transactions },
      )
    ]

-- `_create_transaction`
unfoldable pub create_transaction :
    Key
    → AgentWallet
    → SpendRequest
    → TransactionStatus
    → ℕ
    → Exec WalletException AgentWalletSystem WalletTransaction
unfolding append_transaction
create_transaction id w r status now = do
  let t = new_transaction id w.id r status now
  append_transaction w.id t
  pure t
