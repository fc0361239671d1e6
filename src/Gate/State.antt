-- ===== src/Gate/State.antt =====
-- shared/agent/execution_gate.py: the state of `ExecutionGate`, its records and its daily reset.
use rg_agent_engine.Base.{
  ℕ, ◌+◌, Bool, false, Option, none, some, List, [], ◌∷◌, ◌++◌, Key, ◌==◌, if◌then◌else◌,
}
use rg_agent_engine.Base.Int.{ℤ, pos}
use rg_agent_engine.Base.Dict.{Dict, get, get_or, put}
use rg_agent_engine.Autonomy.{AutonomyMode}
use rg_agent_engine.Gate.Types.{DecisionType, ExecutionRequest, ExecutionRecord}

-- The state of `ExecutionGate`.
pub record ExecutionGate : Type 0 where
  pub daily_spend : Dict ℤ
  pub daily_executions : Dict ℕ
  pub execution_history : List ExecutionRecord
  pub last_daily_reset : Dict ℕ

unfoldable pub new_gate : ExecutionGate
new_gate = record {
  daily_spend = [];
  daily_executions = [];
  execution_history = [];
  last_daily_reset = [];
}

-- `self._daily_spend.get(agent_id, 0.0)`, and the count of executions
unfoldable pub spent : Key → ExecutionGate → ℤ
spent agent_id g = get_or agent_id (pos 0) g.daily_spend

unfoldable pub executions : Key → ExecutionGate → ℕ
executions agent_id g = get_or agent_id 0 g.daily_executions

unfoldable pub record_execution :
    ExecutionRequest → AutonomyMode → DecisionType → ℕ → ExecutionGate → ExecutionGate
unfolding executions
record_execution r mode decision now g = record g {
  execution_history =
      g.execution_history
      ++ record {
        request_id = r.id;
        agent_id = r.agent_id;
        action = r.action;
        cost = r.estimated_cost;
        timestamp = now;
        mode = mode;
        decision = decision;
      }
        ∷ [];
  daily_executions = put r.agent_id (executions r.agent_id g + 1) g.daily_executions;
}

-- `last_reset != today`, where `last_reset` may be None
abbrev pub is_today : ℕ → Option ℕ → Bool
is_today today none = false
is_today today (some day) = day == today

unfoldable pub maybe_reset_daily_limits : Key → ℕ → ExecutionGate → ExecutionGate
maybe_reset_daily_limits agent_id today g =
    if is_today today (get agent_id g.last_daily_reset) then g else record g {
      daily_spend = put agent_id (pos 0) g.daily_spend;
      daily_executions = put agent_id 0 g.daily_executions;
      last_daily_reset = put agent_id today g.last_daily_reset;
    }
