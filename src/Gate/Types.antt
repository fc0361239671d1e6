-- ===== src/Gate/Types.antt =====
-- shared/agent/execution_gate.py: requests, decisions and records. The reason of a decision and its
-- two reporting dictionaries are data, with the values that the source formats into them.
use rg_agent_engine.Base.{ℕ, Bool, Option, Key}
use rg_agent_engine.Base.Int.{ℤ, Limit}
use rg_agent_engine.Autonomy.{AutonomyMode, RiskLevel}

pub data DecisionType : Type 0 where
  allowed blocked pending_approval rate_limited : DecisionType

-- `action_type` is a text: the text "governance", or another.
pub data ActionType : Type 0 where
  governance : ActionType
  other_type : Key → ActionType

pub record ExecutionRequest : Type 0 where
  pub id : Key
  pub agent_id : Key
  pub action : Key
  pub action_type : ActionType
  pub risk_level : RiskLevel
  pub estimated_cost : ℤ
  pub requires_external_api : Bool
  pub requires_financial : Bool
  pub requires_real_world_effect : Bool

pub data Reason : Type 0 where
  full_autonomy self_governance bounded_execution real_world_effect : Reason
  budget_exceeded : Limit → Reason
  transaction_exceeds cost_exceeds : ℤ → Limit → Reason
  risk_at_least : RiskLevel → RiskLevel → Reason

pub data LimitsApplied : Type 0 where
  budget_limits : Limit → ℤ → ℤ → LimitsApplied
  transaction_limits : Limit → ℤ → LimitsApplied
  all_limits : Limit → Limit → Limit → RiskLevel → LimitsApplied

pub data Metadata : Type 0 where
  no_metadata transaction_limit_exceeded : Metadata
  audit : Bool → Metadata
  approval : Option Reason → ℤ → Metadata

pub record ExecutionDecision : Type 0 where
  pub request_id : Key
  pub decision : DecisionType
  pub is_allowed : Bool
  pub requires_approval : Bool
  pub mode : AutonomyMode
  pub reason : Reason
  pub limits_applied : Option LimitsApplied
  pub metadata : Metadata

pub record ExecutionRecord : Type 0 where
  pub request_id : Key
  pub agent_id : Key
  pub action : Key
  pub cost : ℤ
  pub timestamp : ℕ
  pub mode : AutonomyMode
  pub decision : DecisionType
