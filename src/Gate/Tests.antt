-- ===== src/Gate/Tests.antt =====
-- shared/agent/execution_gate.py: requests, and runs of the gate on them.
use rg_agent_engine.Base.{ℕ, ◌≡◌, ◌↔◌, refl, true, false, some, List, [], ◌∷◌, arith}
use rg_agent_engine.Base.Int.{pos, ◌+ℤ◌, finite}
use rg_agent_engine.Base.Lists.{All}
use rg_agent_engine.Base.Dict.{get, put}
use rg_agent_engine.Autonomy.{
  AutonomyModeManager, unbounded, governed, low, default_unbounded, default_governed, new_manager,
  get_mode,
}
use rg_agent_engine.Gate.Types.{
  allowed, blocked, pending_approval, other_type, ExecutionRequest, ExecutionRecord,
}
use rg_agent_engine.Gate.State.{
  ExecutionGate, new_gate, spent, executions, record_execution, maybe_reset_daily_limits,
}
use rg_agent_engine.Gate.Evaluate.{risk_rank, approval_reason, evaluate_governed, evaluate}
use rg_agent_engine.Gate.Calls.{
  can_execute, find_record, Call, ask, quick_ask, read_spend, reject, step, run,
}
use rg_agent_engine.Gate.Budget.{IsWithinBudget, IsGuarded, run-IsWithinBudget}
use rg_agent_engine.Gate.Decisions.{IsPermitted, evaluate_governed_allowed}
use rg_agent_engine.Gate.Records.{entry}

abbrev pay : ℕ → ℕ → ExecutionRequest
pay id cost = record {
  id = id;
  agent_id = 7;
  action = 3;
  action_type = other_type 4;
  risk_level = low;
  estimated_cost = pos cost;
  requires_external_api = false;
  requires_financial = true;
  requires_real_world_effect = false;
}

abbrev governing : AutonomyModeManager
governing = new_manager governed default_unbounded default_governed

abbrev freeing : AutonomyModeManager
freeing = new_manager unbounded default_unbounded default_governed

abbrev calls : List Call
calls =
    ask (pay 1 40) governing 10 1
    ∷ quick_ask (pay 2 45) governing 11 1
    ∷ ask (pay 3 30) governing 12 1
    ∷ reject 3
    ∷ read_spend 7 2
    ∷ []

-- The third request does not fit into what is left of 100.
third_blocked :
    (evaluate (pay 3 30) governing 12 1 (
      step
        (quick_ask (pay 2 45) governing 11 1)
        (step (ask (pay 1 40) governing 10 1) new_gate))).0.decision
    ≡ blocked
unfolding evaluate evaluate_governed maybe_reset_daily_limits record_execution spent executions step
    can_execute new_gate new_manager get_mode get put default_governed approval_reason risk_rank
    ◌+ℤ◌
third_blocked = refl

large_waits : (evaluate (pay 1 60) governing 10 1 new_gate).0.decision ≡ pending_approval
unfolding evaluate evaluate_governed maybe_reset_daily_limits record_execution spent executions
    new_gate new_manager get_mode get put default_governed approval_reason risk_rank ◌+ℤ◌
large_waits = refl

abbrev asked : ExecutionGate
asked = (evaluate (pay 1 40) governing 10 1 new_gate).1

abbrev asked_record : ExecutionRecord
asked_record = entry (pay 1 40) governed allowed 10

asked_found : find_record 1 asked.execution_history ≡ some asked_record
unfolding evaluate evaluate_governed maybe_reset_daily_limits record_execution spent executions
    new_gate new_manager get_mode get put default_governed approval_reason risk_rank ◌+ℤ◌
    find_record
asked_found = refl

is_governing : get_mode 7 governing ≡ governed
unfolding new_manager get_mode get
is_governing = refl

is_freeing : get_mode 7 freeing ≡ unbounded
unfolding new_manager get_mode get
is_freeing = refl

quick_yes : (can_execute (pay 1 40) governing 10 1 new_gate).0 ≡ true
unfolding can_execute evaluate evaluate_governed maybe_reset_daily_limits record_execution spent
    executions new_gate new_manager get_mode get put default_governed approval_reason risk_rank ◌+ℤ◌
quick_yes = refl

calls-IsGuarded : All (IsGuarded (finite (pos 100))) calls
unfolding new_manager default_governed
calls-IsGuarded = (refl, (refl, (refl, (tt, (tt, tt)))))

run-IsWithinBudget_example : IsWithinBudget (finite (pos 100)) (run calls new_gate)
run-IsWithinBudget_example =
    run-IsWithinBudget (finite (pos 100)) calls (omega arith) calls-IsGuarded

evaluate_governed_allowed_example :
    ((evaluate_governed (pay 1 40) default_governed 10 1 new_gate).0.decision ≡ allowed)
    ↔ IsPermitted (pay 1 40) default_governed (maybe_reset_daily_limits 7 1 new_gate)
evaluate_governed_allowed_example =
    evaluate_governed_allowed (pay 1 40) default_governed 10 1 new_gate
