-- ===== src/Backpressure.antt =====
-- shared/messaging/backpressure.py: flow control and the queues of connections.
pub mod Flow
pub mod Controller
pub mod Bounds
pub mod Drained
pub mod Drain
mod Tests
