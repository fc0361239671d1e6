-- ===== src/Negotiation.antt =====
-- shared/agent/negotiation.py: auctions and trades between agents, and the contracts that come out
-- of them. Ids, the clock, the mode manager and the approval callback are arguments; the wallet
-- system is the one of Wallet.antt, if there is one.
pub mod Types
pub mod Auction
pub mod Award
pub mod Contract
pub mod Bids
pub mod Offers
pub mod Invited
pub mod Accept
pub mod Approval
pub mod Gated
pub mod Reach
pub mod Payment
pub mod Tests
