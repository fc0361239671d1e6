-- ===== src/Circuit.antt =====
-- shared/resilience/circuit_breaker.py: the circuit breaker. The clock is an argument of each
-- section that the lock protects. A call is two such sections with the guarded function between
-- them, so that the sections of overlapping calls interleave.
pub mod Breaker
pub mod Traffic
pub mod Opening
pub mod Recovery
pub mod Tests
