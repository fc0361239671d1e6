-- ===== src/Gate.antt =====
-- shared/agent/execution_gate.py: the gate that decides whether an agent's action may run. The gate
-- reads the mode manager (Autonomy.antt). The clock is an argument: `now` is the time stamp of a
-- record, `today` the date.
pub mod Types
pub mod State
pub mod Evaluate
pub mod Calls
pub mod Budget
pub mod Decisions
pub mod Records
pub mod Approval
pub mod Tests
