-- ===== src/Wallet/Types.antt =====
-- shared/agent/wallet.py: transactions, wallets, requests and results. The currency, always "USD",
-- is left out. Of a transaction's metadata, which nothing reads, the model keeps the two entries
-- that a rejection writes.
use rg_agent_engine.Base.{ℕ, Bool, Option, List, Key}
use rg_agent_engine.Base.Int.{ℤ, Limit}

pub data TransactionType : Type 0 where
  credit debit transfer_out transfer_in refund reward penalty : TransactionType

pub data TransactionStatus : Type 0 where
  pending pending_approval completed failed reversed rejected : TransactionStatus

-- The text of the caller, or one that a transfer makes from an agent and such a text.
pub data Description : Type 0 where
  plain : Key → Description
  transfer_to transfer_from : Key → Key → Description

pub record WalletTransaction : Type 0 where
  pub id : Key
  pub wallet_id : Key
  pub type : TransactionType
  pub amount : ℤ
  pub description : Description
  pub counterparty_wallet_id : Option Key
  pub status : TransactionStatus
  pub requires_approval : Bool
  pub approval_id : Option Key
  pub approved_by : Option Key
  pub created_at : ℕ
  pub completed_at : Option ℕ
  pub rejection : Option (Key × Key)

-- The reason of a freeze is a text made of a reason and the one who froze the wallet. The dates of
-- the last resets are numbers.
pub record AgentWallet : Type 0 where
  pub id : Key
  pub agent_id : Key
  pub balance : ℤ
  pub daily_limit : Limit
  pub transaction_limit : Limit
  pub monthly_limit : Limit
  pub daily_spent : ℤ
  pub monthly_spent : ℤ
  pub total_spent : ℤ
  pub total_earned : ℤ
  pub last_daily_reset : ℕ
  pub last_monthly_reset : ℕ
  pub approved_recipients : List Key
  pub blocked_recipients : List Key
  pub is_active : Bool
  pub is_frozen : Bool
  pub frozen_reason : Option (Key × Key)
  pub created_at : ℕ
  pub updated_at : ℕ

pub record SpendRequest : Type 0 where
  pub wallet_id : Key
  pub amount : ℤ
  pub description : Description
  pub recipient_wallet_id : Option Key

pub data SpendError : Type 0 where
  wallet_not_found insufficient_balance source_not_found destination_not_found : SpendError
  recipient_blocked recipient_not_approved transaction_not_found not_pending : SpendError
  unavailable : Bool → Option (Key × Key) → SpendError
  above_limit : ℤ → Limit → SpendError
  daily_exceeded monthly_exceeded : Limit → SpendError

pub record SpendResult : Type 0 where
  pub success : Bool
  pub transaction : Option WalletTransaction
  pub error : Option SpendError
  pub requires_approval : Bool
  pub approval_id : Option Key

-- What a method raises: a `ValueError`, a `KeyError`, or what the approval callback raised.
pub data WalletException : Type 0 where
  already_has_wallet no_such_wallet callback_failed : WalletException
  key_error : Key → WalletException
