-- ===== src/Credits.antt =====
-- shared/security/idempotency.py: `AtomicCreditManager`, on a store that is given.
pub mod Store
pub mod Manager
pub mod Sections
pub mod Spending
pub mod Lasting
pub mod Once
pub mod Reserving
mod Tests
