-- ===== src/Gate/Calls.antt =====
-- shared/agent/execution_gate.py: the queries, the approvals, and runs of calls.
use rg_agent_engine.Base.{
  ℕ, Bool, true, false, not, ◌&&◌, Option, none, some, List, [], ◌∷◌, Key, is_empty, ◌==◌,
  if◌then◌else◌,
}
use rg_agent_engine.Base.Int.{ℤ, ◌+ℤ◌, Limit, infinite, left_under}
use rg_agent_engine.Base.Lists.{keep_if, last_items}
use rg_agent_engine.Base.Dict.{put}
use rg_agent_engine.Autonomy.{AutonomyMode, unbounded, governed, AutonomyModeManager, get_mode}
use rg_agent_engine.Gate.Types.{DecisionType, allowed, blocked, ExecutionRequest, ExecutionRecord}
use rg_agent_engine.Gate.State.{ExecutionGate, spent, executions, maybe_reset_daily_limits}
use rg_agent_engine.Gate.Evaluate.{evaluate}

unfoldable pub get_daily_spend : Key → ℕ → ExecutionGate → ℤ × ExecutionGate
unfolding maybe_reset_daily_limits spent
get_daily_spend agent_id today g =
    let g' = maybe_reset_daily_limits agent_id today g in (spent agent_id g', g')

unfoldable pub get_daily_executions : Key → ℕ → ExecutionGate → ℕ × ExecutionGate
unfolding maybe_reset_daily_limits executions
get_daily_executions agent_id today g =
    let g' = maybe_reset_daily_limits agent_id today g in (executions agent_id g', g')

unfoldable pub remaining_as :
    AutonomyMode → Key → AutonomyModeManager → ℕ → ExecutionGate → Limit × ExecutionGate
unfolding get_daily_spend
remaining_as unbounded agent_id m today g = (infinite, g)
remaining_as governed agent_id m today g =
    let (amount, g') = get_daily_spend agent_id today g in
    (left_under m.governed_config.max_budget_per_day amount, g')

unfoldable pub get_remaining_budget :
    Key → AutonomyModeManager → ℕ → ExecutionGate → Limit × ExecutionGate
unfolding remaining_as
get_remaining_budget agent_id m today g = remaining_as (get_mode agent_id m) agent_id m today g

unfoldable pub get_execution_history : Option Key → ℕ → ExecutionGate → List ExecutionRecord
get_execution_history agent_id limit g = last_items limit (elim agent_id [
  | none ↦ g.execution_history
  | some a ↦
      if is_empty a then g.execution_history else keep_if (λ r. r.agent_id == a) g.execution_history
])

unfoldable pub can_execute :
    ExecutionRequest → AutonomyModeManager → ℕ → ℕ → ExecutionGate → Bool × ExecutionGate
unfolding evaluate
can_execute r m now today g =
    let (d, g') = evaluate r m now today g in (d.is_allowed && not d.requires_approval, g')

-- The first record with this request id, and the history with its decision replaced.
unfoldable pub find_record : Key → List ExecutionRecord → Option ExecutionRecord
find_record request_id [] = none
find_record request_id (r ∷ rs) =
    if r.request_id == request_id then some r else find_record request_id rs

unfoldable pub set_decision : Key → DecisionType → List ExecutionRecord → List ExecutionRecord
set_decision request_id d [] = []
set_decision request_id d (r ∷ rs) =
    if r.request_id == request_id
    then record r { decision = d } ∷ rs
    else r ∷ set_decision request_id d rs

unfoldable pub mark_approved : Key → ExecutionGate → Bool × ExecutionGate
unfolding find_record set_decision spent
mark_approved request_id g = elim (find_record request_id g.execution_history) [
  | none ↦ (false, g)
  | some r ↦ (
    true,
    record g {
      execution_history = set_decision request_id allowed g.execution_history;
      daily_spend = put r.agent_id (spent r.agent_id g +ℤ r.cost) g.daily_spend;
    },
  )
]

unfoldable pub mark_rejected : Key → ExecutionGate → Bool × ExecutionGate
unfolding find_record set_decision
mark_rejected request_id g = elim (find_record request_id g.execution_history) [
  | none ↦ (false, g)
  | some r ↦
      (true, record g { execution_history = set_decision request_id blocked g.execution_history })
]

-- The calls on a gate, each with the mode manager and the clock at that time.
pub data Call : Type 0 where
  ask quick_ask : ExecutionRequest → AutonomyModeManager → ℕ → ℕ → Call
  read_spend read_executions : Key → ℕ → Call
  read_remaining : Key → AutonomyModeManager → ℕ → Call
  approve reject : Key → Call

unfoldable pub step : Call → ExecutionGate → ExecutionGate
unfolding evaluate can_execute get_daily_spend get_daily_executions get_remaining_budget
    mark_approved mark_rejected
step (ask r m now today) g = (evaluate r m now today g).1
step (quick_ask r m now today) g = (can_execute r m now today g).1
step (read_spend a today) g = (get_daily_spend a today g).1
step (read_executions a today) g = (get_daily_executions a today g).1
step (read_remaining a m today) g = (get_remaining_budget a m today g).1
step (approve id) g = (mark_approved id g).1
step (reject id) g = (mark_rejected id g).1

unfoldable pub run : List Call → ExecutionGate → ExecutionGate
run [] g = g
run (c ∷ cs) g = run cs (step c g)
