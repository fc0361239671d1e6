-- ===== src/Gate/Evaluate.antt =====
-- shared/agent/execution_gate.py: `evaluate` and the two evaluations behind it.
use rg_agent_engine.Base.{ℕ, Bool, true, false, not, ◌&&◌, Option, none, some, leb, if◌then◌else◌}
use rg_agent_engine.Base.Int.{◌+ℤ◌, exceeds}
use rg_agent_engine.Base.Dict.{put}
use rg_agent_engine.Autonomy.{
  AutonomyMode, unbounded, governed, RiskLevel, low, medium, high, critical, UnboundedModeConfig,
  GovernedModeConfig, AutonomyModeManager, get_mode,
}
use rg_agent_engine.Gate.Types.{
  DecisionType, allowed, blocked, pending_approval, ActionType, governance, other_type,
  ExecutionRequest, Reason, full_autonomy, self_governance, bounded_execution, real_world_effect,
  budget_exceeded, transaction_exceeds, cost_exceeds, risk_at_least, LimitsApplied, budget_limits,
  transaction_limits, all_limits, Metadata, no_metadata, transaction_limit_exceeded, audit,
  approval, ExecutionDecision,
}
use rg_agent_engine.Gate.State.{ExecutionGate, spent, record_execution, maybe_reset_daily_limits}

unfoldable pub evaluate_unbounded :
    ExecutionRequest → UnboundedModeConfig → ℕ → ExecutionGate → ExecutionDecision × ExecutionGate
unfolding record_execution
evaluate_unbounded r config now g = (
  record {
    request_id = r.id;
    decision = allowed;
    is_allowed = true;
    requires_approval = false;
    mode = unbounded;
    reason = full_autonomy;
    limits_applied = none;
    metadata = audit config.audit_enabled;
  },
  if config.audit_enabled then record_execution r unbounded allowed now g else g,
)

-- the place in `risk_order`
unfoldable pub risk_rank : RiskLevel → ℕ
risk_rank low = 0
risk_rank medium = 1
risk_rank high = 2
risk_rank critical = 3

-- The three checks that ask for approval run in this order; a later one replaces the reason.
abbrev pub after_risk : ExecutionRequest → GovernedModeConfig → Option Reason
after_risk r config =
    if leb (risk_rank config.approval_threshold_risk) (risk_rank r.risk_level)
    then some (risk_at_least r.risk_level config.approval_threshold_risk)
    else none

abbrev pub after_cost : ExecutionRequest → GovernedModeConfig → Option Reason → Option Reason
after_cost r config why =
    if exceeds r.estimated_cost config.approval_threshold_usd
    then some (cost_exceeds r.estimated_cost config.approval_threshold_usd)
    else why

abbrev pub after_effect : ExecutionRequest → GovernedModeConfig → Option Reason → Option Reason
after_effect r config why =
    if r.requires_real_world_effect && config.require_approval then some real_world_effect else why

-- `approval_reason`; `requires_approval` is set exactly where it is.
unfoldable pub approval_reason : ExecutionRequest → GovernedModeConfig → Option Reason
approval_reason r config = after_effect r config (after_cost r config (after_risk r config))

abbrev pub decide_governed :
    ExecutionRequest
    → DecisionType
    → Bool
    → Bool
    → Reason
    → Option LimitsApplied
    → Metadata
    → ExecutionDecision
decide_governed r d allows asks why limits meta = record {
  request_id = r.id;
  decision = d;
  is_allowed = allows;
  requires_approval = asks;
  mode = governed;
  reason = why;
  limits_applied = limits;
  metadata = meta;
}

abbrev pub limits_of : GovernedModeConfig → LimitsApplied
limits_of config =
    all_limits config.max_budget_per_day config.transaction_limit config.approval_threshold_usd
      config.approval_threshold_risk

-- The end of `_evaluate_governed`, behind the guards: record the execution, and count the cost if
-- there is no reason to ask for approval.
unfoldable pub settle :
    Option Reason
    → ExecutionRequest
    → GovernedModeConfig
    → ℕ
    → ExecutionGate
    → ExecutionDecision × ExecutionGate
unfolding record_execution
settle none r config now g =
    let current = spent r.agent_id g in
    let g' = record_execution r governed allowed now g in
    let g'' = record g' {
      daily_spend = put r.agent_id (current +ℤ r.estimated_cost) g'.daily_spend;
    } in
    (
      decide_governed r allowed true false bounded_execution (some (limits_of config))
          (approval none (spent r.agent_id g'')),
      g'',
    )
settle (some why) r config now g =
    let g' = record_execution r governed pending_approval now g in
    (
      decide_governed r pending_approval true true why (some (limits_of config))
          (approval (some why) (spent r.agent_id g')),
      g',
    )

abbrev pub is_governance : ActionType → Bool
is_governance governance = true
is_governance (other_type _) = false

-- `_evaluate_governed` behind the daily reset
unfoldable pub evaluate_limits :
    ExecutionRequest → GovernedModeConfig → ℕ → ExecutionGate → ExecutionDecision × ExecutionGate
unfolding record_execution settle approval_reason spent
evaluate_limits r config now g =
    if exceeds (spent r.agent_id g +ℤ r.estimated_cost) config.max_budget_per_day
    then (
      decide_governed r blocked false false (budget_exceeded config.max_budget_per_day)
          (some (budget_limits config.max_budget_per_day (spent r.agent_id g) r.estimated_cost))
          no_metadata,
      record_execution r governed blocked now g,
    )
    else if r.requires_financial && exceeds r.estimated_cost config.transaction_limit
    then (
      decide_governed r pending_approval true true
          (transaction_exceeds r.estimated_cost config.transaction_limit)
          (some (transaction_limits config.transaction_limit r.estimated_cost))
          transaction_limit_exceeded,
      record_execution r governed pending_approval now g,
    )
    else if is_governance r.action_type && not config.can_modify_own_permissions
    then (
      decide_governed r blocked false false self_governance none no_metadata,
      record_execution r governed blocked now g,
    )
    else settle (approval_reason r config) r config now g

unfoldable pub evaluate_governed :
    ExecutionRequest
    → GovernedModeConfig
    → ℕ
    → ℕ
    → ExecutionGate
    → ExecutionDecision × ExecutionGate
unfolding evaluate_limits maybe_reset_daily_limits
evaluate_governed r config now today g =
    evaluate_limits r config now (maybe_reset_daily_limits r.agent_id today g)

unfoldable pub evaluate_as :
    AutonomyMode
    → ExecutionRequest
    → AutonomyModeManager
    → ℕ
    → ℕ
    → ExecutionGate
    → ExecutionDecision × ExecutionGate
unfolding evaluate_unbounded evaluate_governed
evaluate_as unbounded r m now today g = evaluate_unbounded r m.unbounded_config now g
evaluate_as governed r m now today g = evaluate_governed r m.governed_config now today g

unfoldable pub evaluate :
    ExecutionRequest
    → AutonomyModeManager
    → ℕ
    → ℕ
    → ExecutionGate
    → ExecutionDecision × ExecutionGate
unfolding evaluate_as
evaluate r m now today g = evaluate_as (get_mode r.agent_id m) r m now today g
