-- ===== src/Ordering.antt =====
-- shared/messaging/ordering.py: sequence numbers, and channels that deliver messages in order.
pub mod Tracker
pub mod Channel
pub mod Gaps
pub mod Delivery
pub mod Tests
