-- ===== src/RateLimit.antt =====
-- app/rate_limiter.py: the limits of requests of a user by tier. The clock is an argument; times
-- are in seconds, and `ts > now - window` is written `now < ts + window`.
pub mod Limiter
pub mod Window
pub mod Creation
pub mod Tests
