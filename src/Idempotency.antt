-- ===== src/Idempotency.antt =====
-- shared/security/idempotency.py: `IdempotencyManager`, on a store that is given.
pub mod Store
pub mod Manager
pub mod Records
pub mod Requests
pub mod Waiting
mod Tests
