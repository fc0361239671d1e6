-- ===== src/Gate/Records.antt =====
-- shared/agent/execution_gate.py: what an evaluation records and counts.
use rg_agent_engine.Base.{
  ℕ, ◌+◌, ◌≡◌, refl, none, some, Option, [], ◌∷◌, ◌++◌, Key, ◌==◌, if◌then◌else◌, arith,
}
use rg_agent_engine.Base.Dict.{get-put}
use rg_agent_engine.Autonomy.{governed, GovernedModeConfig, AutonomyMode}
use rg_agent_engine.Gate.Types.{
  ExecutionRequest, ExecutionRecord, DecisionType, allowed, blocked, pending_approval, Reason,
}
use rg_agent_engine.Gate.State.{
  ExecutionGate, executions, record_execution, maybe_reset_daily_limits,
}
use rg_agent_engine.Gate.Evaluate.{approval_reason, evaluate_governed, evaluate_limits, settle}

abbrev pub entry : ExecutionRequest → AutonomyMode → DecisionType → ℕ → ExecutionRecord
entry r mode d now = record {
  request_id = r.id;
  agent_id = r.agent_id;
  action = r.action;
  cost = r.estimated_cost;
  timestamp = now;
  mode = mode;
  decision = d;
}

-- The step from `g` to `g'` added one record to the history and one to the agent's count.
pub record IsRecorded (r : ExecutionRequest) (mode : AutonomyMode) (d : DecisionType) (now : ℕ)
    (g g' : ExecutionGate) : Type 0 where
  pub history : g'.execution_history ≡ g.execution_history ++ entry r mode d now ∷ []
  pub counts :
      (a : Key)
      → executions a g' ≡ (if r.agent_id == a then executions r.agent_id g + 1 else executions a g)

record_execution-IsRecorded :
    (r : ExecutionRequest) (mode : AutonomyMode) (d : DecisionType) (now : ℕ) (g : ExecutionGate)
    → IsRecorded r mode d now g (record_execution r mode d now g)
unfolding record_execution executions
record_execution-IsRecorded r mode d now g = record {
  history = refl;
  counts =
      λ a. ground (arith, get-put r.agent_id a (executions r.agent_id g + 1) g.daily_executions);
}

settle-IsRecorded :
    (why : Option Reason) (r : ExecutionRequest) (config : GovernedModeConfig) (now : ℕ)
    (g : ExecutionGate)
    → let (d, g') = settle why r config now g in IsRecorded r governed d.decision now g g'
unfolding settle executions
settle-IsRecorded none r config now g =
    let i = record_execution-IsRecorded r governed allowed now g in
    record { history = i.history; counts = i.counts }
settle-IsRecorded (some why) r config now g =
    record_execution-IsRecorded r governed pending_approval now g

evaluate_limits-IsRecorded :
    (r : ExecutionRequest) (config : GovernedModeConfig) (now : ℕ) (g : ExecutionGate)
    → let (d, g') = evaluate_limits r config now g in IsRecorded r governed d.decision now g g'
unfolding evaluate_limits
evaluate_limits-IsRecorded r config now g =
    let s = settle-IsRecorded (approval_reason r config) r config now g in
    let b = record_execution-IsRecorded r governed blocked now g in
    let p = record_execution-IsRecorded r governed pending_approval now g in
    record {
      history = ground (arith, s.history, b.history, p.history);
      counts = λ a. ground (arith, s.counts a, b.counts a, p.counts a);
    }

-- An evaluation in the governed mode, behind the daily reset, appends one record that carries the
-- request and the decision, and adds one to the day's count of its agent and of no other.
pub evaluate_governed-IsRecorded :
    (r : ExecutionRequest) (config : GovernedModeConfig) (now today : ℕ) (g : ExecutionGate)
    → let (d, g') = evaluate_governed r config now today g in
      IsRecorded r governed d.decision now (maybe_reset_daily_limits r.agent_id today g) g'
unfolding evaluate_governed
evaluate_governed-IsRecorded r config now today g =
    evaluate_limits-IsRecorded r config now (maybe_reset_daily_limits r.agent_id today g)
