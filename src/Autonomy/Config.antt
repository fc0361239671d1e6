-- ===== src/Autonomy/Config.antt =====
-- shared/agent/autonomy_mode.py: the modes, the risk levels and the two configuration classes.
use rg_agent_engine.Base.{ℕ, Bool, true, false}
use rg_agent_engine.Base.Int.{Limit, infinite, finite, pos}

pub data AutonomyMode : Type 0 where
  unbounded governed : AutonomyMode

pub data RiskLevel : Type 0 where
  low medium high critical : RiskLevel

pub data AuditLevel : Type 0 where
  minimal standard full : AuditLevel

-- `a == b`
unfoldable pub same_mode : AutonomyMode → AutonomyMode → Bool
same_mode unbounded unbounded = true
same_mode governed governed = true
same_mode _ _ = false

pub record UnboundedModeConfig : Type 0 where
  pub max_concurrent_tasks : ℕ
  pub max_tokens_per_request : ℕ
  pub max_budget_per_day : Limit
  pub max_budget_per_month : Limit
  pub can_modify_own_permissions : Bool
  pub can_create_sub_agents : Bool
  pub can_set_own_goals : Bool
  pub can_modify_governance : Bool
  pub can_expand_scope : Bool
  pub can_grant_permissions_to_others : Bool
  pub require_approval : Bool
  pub auto_execute_all : Bool
  pub allow_external_apis : Bool
  pub allow_financial_transactions : Bool
  pub allow_real_world_effects : Bool
  pub wallet_limit : Limit
  pub transaction_limit : Limit
  pub daily_transaction_limit : Limit
  pub audit_enabled : Bool
  pub audit_level : AuditLevel
  pub can_negotiate_autonomously : Bool
  pub can_create_binding_contracts : Bool
  pub contract_value_limit : Limit

pub record GovernedModeConfig : Type 0 where
  pub max_concurrent_tasks : ℕ
  pub max_tokens_per_request : ℕ
  pub max_budget_per_day : Limit
  pub max_budget_per_month : Limit
  pub can_modify_own_permissions : Bool
  pub can_create_sub_agents : Bool
  pub can_set_own_goals : Bool
  pub can_modify_governance : Bool
  pub can_expand_scope : Bool
  pub can_grant_permissions_to_others : Bool
  pub require_approval : Bool
  pub auto_execute_all : Bool
  pub allow_external_apis : Bool
  pub allow_financial_transactions : Bool
  pub allow_real_world_effects : Bool
  pub wallet_limit : Limit
  pub transaction_limit : Limit
  pub daily_transaction_limit : Limit
  pub approval_threshold_usd : Limit
  pub approval_threshold_risk : RiskLevel
  pub approval_timeout_seconds : ℕ
  pub audit_enabled : Bool
  pub audit_level : AuditLevel
  pub can_negotiate_autonomously : Bool
  pub can_create_binding_contracts : Bool
  pub contract_value_limit : Limit

unfoldable pub default_unbounded : UnboundedModeConfig
default_unbounded = record {
  max_concurrent_tasks = 10000;
  max_tokens_per_request = 10_000_000;
  max_budget_per_day = infinite;
  max_budget_per_month = infinite;
  can_modify_own_permissions = true;
  can_create_sub_agents = true;
  can_set_own_goals = true;
  can_modify_governance = true;
  can_expand_scope = true;
  can_grant_permissions_to_others = true;
  require_approval = false;
  auto_execute_all = true;
  allow_external_apis = true;
  allow_financial_transactions = true;
  allow_real_world_effects = true;
  wallet_limit = infinite;
  transaction_limit = infinite;
  daily_transaction_limit = infinite;
  audit_enabled = false;
  audit_level = minimal;
  can_negotiate_autonomously = true;
  can_create_binding_contracts = true;
  contract_value_limit = infinite;
}

-- in whole dollars
unfoldable pub default_governed : GovernedModeConfig
default_governed = record {
  max_concurrent_tasks = 10;
  max_tokens_per_request = 100_000;
  max_budget_per_day = finite (pos 100);
  max_budget_per_month = finite (pos 2000);
  can_modify_own_permissions = false;
  can_create_sub_agents = true;
  can_set_own_goals = false;
  can_modify_governance = false;
  can_expand_scope = false;
  can_grant_permissions_to_others = false;
  require_approval = true;
  auto_execute_all = false;
  allow_external_apis = true;
  allow_financial_transactions = true;
  allow_real_world_effects = true;
  wallet_limit = finite (pos 1000);
  transaction_limit = finite (pos 100);
  daily_transaction_limit = finite (pos 500);
  approval_threshold_usd = finite (pos 50);
  approval_threshold_risk = medium;
  approval_timeout_seconds = 3600;
  audit_enabled = true;
  audit_level = full;
  can_negotiate_autonomously = true;
  can_create_binding_contracts = true;
  contract_value_limit = finite (pos 500);
}
