-- ===== src/Retry.antt =====
-- shared/resilience/retry.py: retries with exponential backoff. The function that is called is an
-- argument: how its run at each attempt ends.
pub mod Policy
pub mod Attempts
pub mod Tests
