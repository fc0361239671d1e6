-- ===== src/Scheduler.antt =====
-- shared/agent/scheduler.py: the queue of the scheduler, its policies, and the attempts of a task.
pub mod Tasks
pub mod Queue
pub mod Order
pub mod Fairness
pub mod Choice
pub mod Events
pub mod Tries
pub mod Attempts
mod Select
