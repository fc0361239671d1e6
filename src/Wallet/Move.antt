-- ===== src/Wallet/Move.antt =====
-- shared/agent/wallet.py: `transfer`.
use rg_agent_engine.Base.{
  ℕ, Bool, true, false, Option, none, some, List, [], ◌∷◌, Key, ◌&&◌, if◌then◌else◌, not,
}
use rg_agent_engine.Base.Int.{ℤ}
use rg_agent_engine.Base.Lists.{member}
use rg_agent_engine.Base.Dict.{get}
use rg_agent_engine.Base.Exec.{◌>>=◌, ◌>>◌, pure, modify}
use rg_agent_engine.Autonomy.{AutonomyMode, unbounded, governed, get_mode}
use rg_agent_engine.Wallet.Types.{
  WalletTransaction, AgentWallet, SpendRequest, SpendResult, transfer_in, TransactionType,
  Description, transfer_to, transfer_from, completed, source_not_found, destination_not_found,
  recipient_blocked, recipient_not_approved,
}
use rg_agent_engine.Wallet.State.{AgentWalletSystem, Env, write_wallet, append_transaction}
use rg_agent_engine.Wallet.Spend.{Method, failure, give_to, spend}

-- A completed credit of a wallet, not yet stored.
abbrev pub credit_transaction :
    Key → Key → TransactionType → ℤ → Description → Option Key → ℕ → WalletTransaction
credit_transaction id wallet_id type amount description counterparty now = record {
  id = id;
  wallet_id = wallet_id;
  type = type;
  amount = amount;
  description = description;
  counterparty_wallet_id = counterparty;
  status = completed;
  requires_approval = false;
  approval_id = none;
  approved_by = none;
  created_at = now;
  completed_at = some now;
  rejection = none;
}

-- An assignment to fields of the wallet object under a key, as it is at that moment.
unfoldable pub update_wallet :
    Key → (AgentWallet → AgentWallet) → AgentWalletSystem → AgentWalletSystem
unfolding write_wallet
update_wallet k f s = elim (get k s.wallets) [ none ↦ s | some w ↦ write_wallet k (f w) s ]

-- The end of `transfer`: credit the destination and record it.
unfoldable pub credit_destination : Key → Key → Key → Key → ℤ → Key → ℕ → Method (Unit {0})
unfolding update_wallet give_to append_transaction
credit_destination id to_wallet_id from_wallet_id from_agent amount text now = do
  modify (update_wallet to_wallet_id (give_to amount now))
  append_transaction to_wallet_id (
      credit_transaction id to_wallet_id transfer_in amount (transfer_from from_agent text)
        (some from_wallet_id) now)

abbrev pub transfer_request : Key → Key → ℤ → Key → Key → SpendRequest
transfer_request from_wallet_id to_wallet_id amount to_agent text = record {
  wallet_id = from_wallet_id;
  amount = amount;
  description = transfer_to to_agent text;
  recipient_wallet_id = some to_wallet_id;
}

abbrev pub is_governed_mode : AutonomyMode → Bool
is_governed_mode unbounded = false
is_governed_mode governed = true

abbrev pub is_nil : List Key → Bool
is_nil [] = true
is_nil (k ∷ ks) = false

-- `if not spend_result.success: return spend_result`, and the rest of `transfer`
unfoldable pub credit_if_paid : Method (Unit {0}) → SpendResult → Method SpendResult
credit_if_paid credited result = if result.success then credited >> pure result else pure result

-- `transfer` behind the restrictions on the recipient
unfoldable pub move_funds :
    Key → Key → Key → Key → ℤ → Key → AgentWallet → AgentWallet → Env → Method SpendResult
unfolding spend credit_destination credit_if_paid
move_funds id credit_id from_wallet_id to_wallet_id amount text source target env = do
  result ← spend id (transfer_request from_wallet_id to_wallet_id amount target.agent_id text) env
  let credited =
      credit_destination credit_id to_wallet_id from_wallet_id source.agent_id amount text env.now
  credit_if_paid credited result

-- The two restrictions on the recipient, in the governed mode.
unfoldable pub is_blocked : Key → AgentWallet → Env → Bool
is_blocked to_wallet_id source env =
    is_governed_mode (get_mode source.agent_id env.manager)
    && member to_wallet_id source.blocked_recipients

unfoldable pub is_unapproved : Key → AgentWallet → Env → Bool
is_unapproved to_wallet_id source env =
    is_governed_mode (get_mode source.agent_id env.manager)
    && (not (is_nil source.approved_recipients)
        && not (member to_wallet_id source.approved_recipients))

unfoldable pub transfer_found :
    Key
    → Key
    → Key
    → Key
    → ℤ
    → Key
    → Option AgentWallet
    → Option AgentWallet
    → Env
    → Method SpendResult
unfolding move_funds
transfer_found id credit_id from_wallet_id to_wallet_id amount text none target env =
    pure (failure source_not_found)
transfer_found id credit_id from_wallet_id to_wallet_id amount text (some source) none env =
    pure (failure destination_not_found)
transfer_found id credit_id from_wallet_id to_wallet_id amount text (some source) (some target)
      env =
    if is_blocked to_wallet_id source env
    then pure (failure recipient_blocked)
    else if is_unapproved to_wallet_id source env
    then pure (failure recipient_not_approved)
    else move_funds id credit_id from_wallet_id to_wallet_id amount text source target env

-- `transfer`; `id` and `credit_id` are the ids of the two transactions.
unfoldable pub transfer : Key → Key → Key → Key → ℤ → Key → Env → Method SpendResult
unfolding transfer_found
transfer id credit_id from_wallet_id to_wallet_id amount text env s =
    transfer_found id credit_id from_wallet_id to_wallet_id amount text
      (get from_wallet_id s.wallets) (get to_wallet_id s.wallets) env s
