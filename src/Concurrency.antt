-- ===== src/Concurrency.antt =====
-- shared/agent/concurrency.py: the graph of tasks, and the manager that executes it.
pub mod Graph
pub mod Nodes
pub mod Links
pub mod Manager
pub mod Execution
pub mod Collecting
pub mod Cycle
pub mod Acyclic
pub mod Growth
pub mod Stuck
pub mod Blocking
pub mod Settling
pub mod Failure
pub mod Soundness
pub mod Permits
mod Tests
