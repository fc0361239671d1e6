-- ===== src/Wallet.antt =====
-- shared/agent/wallet.py: the wallets of the agents. A method is an action on the state of
-- `AgentWalletSystem`; a wallet, which the source shares by reference, is written back under its
-- key. Ids made by `uuid4`, the clock, the dates, the mode manager and the approval callback are
-- arguments.
pub mod Types
pub mod State
pub mod Spend
pub mod Move
pub mod Manage
pub mod Effect
pub mod Invariant
pub mod Money
pub mod Transfer
pub mod Limits
pub mod Approve
pub mod Lifecycle
pub mod Flow
pub mod Reach
pub mod Solvency
pub mod Debt
pub mod Tests
