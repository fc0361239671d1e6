-- ===== src/Gate/Decisions.antt =====
-- shared/agent/execution_gate.py: what the gate decides.
use rg_agent_engine.Base.{
  ℕ, ◌<◌, ◌≡◌, ◌≢◌, ◌↔◌, refl, true, false, none, some, Option, arith, Bool, ◌&&◌, not,
}
use rg_agent_engine.Base.Int.{◌+ℤ◌, exceeds, Within, exceeds-false, Within-exceeds}
use rg_agent_engine.Autonomy.{
  unbounded, governed, GovernedModeConfig, AutonomyModeManager, AutonomyMode, get_mode,
}
use rg_agent_engine.Gate.Types.{
  ExecutionRequest, ExecutionDecision, allowed, blocked, pending_approval, rate_limited, Reason,
  ActionType, governance, other_type,
}
use rg_agent_engine.Gate.State.{ExecutionGate, spent, maybe_reset_daily_limits}
use rg_agent_engine.Gate.Evaluate.{
  is_governance, evaluate, approval_reason, risk_rank, evaluate_as, evaluate_governed,
  evaluate_unbounded, evaluate_limits, settle,
}

-- What an action must satisfy to run at once in the governed mode.
pub record IsPermitted (r : ExecutionRequest) (config : GovernedModeConfig) (g : ExecutionGate)
    : Type 0 where
  pub in_budget : Within (spent r.agent_id g +ℤ r.estimated_cost) config.max_budget_per_day
  pub small : r.requires_financial ≡ true → Within r.estimated_cost config.transaction_limit
  pub low_risk : risk_rank r.risk_level < risk_rank config.approval_threshold_risk
  pub cheap : Within r.estimated_cost config.approval_threshold_usd
  pub no_effect : r.requires_real_world_effect ≡ true → config.require_approval ≡ false
  pub may_govern : r.action_type ≡ governance → config.can_modify_own_permissions ≡ true

approval_reason-none :
    (r : ExecutionRequest) (config : GovernedModeConfig)
    → approval_reason r config ≡ none
    → (risk_rank r.risk_level < risk_rank config.approval_threshold_risk)
      × (exceeds r.estimated_cost config.approval_threshold_usd ≡ false)
      × ((r.requires_real_world_effect && config.require_approval) ≡ false)
unfolding approval_reason
approval_reason-none r config h = ground arith

none-approval_reason :
    (r : ExecutionRequest) (config : GovernedModeConfig)
    → (risk_rank r.risk_level < risk_rank config.approval_threshold_risk)
    → (exceeds r.estimated_cost config.approval_threshold_usd ≡ false)
    → ((r.requires_real_world_effect && config.require_approval) ≡ false)
    → approval_reason r config ≡ none
unfolding approval_reason
none-approval_reason r config h k l = ground arith

settle-allowed :
    (why : Option Reason) (r : ExecutionRequest) (config : GovernedModeConfig) (now : ℕ)
    (g : ExecutionGate)
    → (settle why r config now g).0.decision ≡ allowed
    → why ≡ none
unfolding settle
settle-allowed none r config now g h = refl
settle-allowed (some why) r config now g h = cc

allowed-tests :
    (r : ExecutionRequest) (config : GovernedModeConfig) (now : ℕ) (g : ExecutionGate)
    → (evaluate_limits r config now g).0.decision ≡ allowed
    → (exceeds (spent r.agent_id g +ℤ r.estimated_cost) config.max_budget_per_day ≡ false)
      × ((r.requires_financial && exceeds r.estimated_cost config.transaction_limit) ≡ false)
      × ((is_governance r.action_type && not config.can_modify_own_permissions) ≡ false)
      × (approval_reason r config ≡ none)
unfolding evaluate_limits
allowed-tests r config now g h =
    ground (arith, settle-allowed (approval_reason r config) r config now g)

tests-allowed :
    (r : ExecutionRequest) (config : GovernedModeConfig) (now : ℕ) (g : ExecutionGate)
    → exceeds (spent r.agent_id g +ℤ r.estimated_cost) config.max_budget_per_day ≡ false
    → (r.requires_financial && exceeds r.estimated_cost config.transaction_limit) ≡ false
    → (is_governance r.action_type && not config.can_modify_own_permissions) ≡ false
    → approval_reason r config ≡ none
    → (evaluate_limits r config now g).0.decision ≡ allowed
unfolding evaluate_limits settle
tests-allowed r config now g b t p a = rw (b, t, p, a)

and-false : (a b : Bool) → (a ≡ true → b ≡ false) → (a && b) ≡ false
and-false true b h = h refl
and-false false b h = refl

governance_lem :
    (t : ActionType) (may : Bool)
    → (t ≡ governance → may ≡ true)
    → (is_governance t && not may) ≡ false
governance_lem governance may h = rw (h refl)
governance_lem (other_type k) may h = refl

-- An action of an agent in the governed mode runs at once exactly if its cost fits into what is
-- left of the day's budget (after the daily reset), a financial one is within the transaction
-- limit, its risk is below the threshold and its cost within the approval threshold, it has no
-- real-world effect where approval is required, and it is no governance action of an agent that
-- may not modify its permissions.
pub evaluate_governed_allowed :
    (r : ExecutionRequest) (config : GovernedModeConfig) (now today : ℕ) (g : ExecutionGate)
    → ((evaluate_governed r config now today g).0.decision ≡ allowed)
      ↔ IsPermitted r config (maybe_reset_daily_limits r.agent_id today g)
unfolding evaluate_governed
evaluate_governed_allowed r config now today g = (there, back)
  where
    g' : ExecutionGate
    g' = maybe_reset_daily_limits r.agent_id today g

    there : (evaluate_limits r config now g').0.decision ≡ allowed → IsPermitted r config g'
    there h =
        let (b, t, p, a) = allowed-tests r config now g' h in
        let (low, cheap, effect) = approval_reason-none r config a in
        record {
          in_budget =
              exceeds-false (spent r.agent_id g' +ℤ r.estimated_cost) config.max_budget_per_day b;
          small = λ f. exceeds-false r.estimated_cost config.transaction_limit (ground arith);
          low_risk = low;
          cheap = exceeds-false r.estimated_cost config.approval_threshold_usd cheap;
          no_effect = λ f. ground arith;
          may_govern = λ f. ground arith;
        }

    back : IsPermitted r config g' → (evaluate_limits r config now g').0.decision ≡ allowed
    back h =
        tests-allowed r config now g'
          (Within-exceeds (spent r.agent_id g' +ℤ r.estimated_cost) config.max_budget_per_day
            h.in_budget)
          (and-false _ _
            (λ f. Within-exceeds r.estimated_cost config.transaction_limit (h.small f)))
          (governance_lem r.action_type config.can_modify_own_permissions h.may_govern)
          (none-approval_reason r config h.low_risk
            (Within-exceeds r.estimated_cost config.approval_threshold_usd h.cheap)
            (and-false _ _ h.no_effect))

-- How the fields of a decision go together.
pub record IsCoherent (r : ExecutionRequest) (mode : AutonomyMode) (d : ExecutionDecision)
    : Type 0 where
  pub request : d.request_id ≡ r.id
  pub mode_of : d.mode ≡ mode
  pub refused : (d.is_allowed ≡ false) ↔ (d.decision ≡ blocked)
  pub asks : (d.requires_approval ≡ true) ↔ (d.decision ≡ pending_approval)
  pub never_limited : d.decision ≢ rate_limited

settle-IsCoherent :
    (why : Option Reason) (r : ExecutionRequest) (config : GovernedModeConfig) (now : ℕ)
    (g : ExecutionGate)
    → IsCoherent r governed (settle why r config now g).0
unfolding settle
settle-IsCoherent none r config now g = record {
  request = refl;
  mode_of = refl;
  refused = ground arith;
  asks = ground arith;
  never_limited = λ e. cc;
}
settle-IsCoherent (some why) r config now g = record {
  request = refl;
  mode_of = refl;
  refused = ground arith;
  asks = ground arith;
  never_limited = λ e. cc;
}

evaluate_limits-IsCoherent :
    (r : ExecutionRequest) (config : GovernedModeConfig) (now : ℕ) (g : ExecutionGate)
    → IsCoherent r governed (evaluate_limits r config now g).0
unfolding evaluate_limits
evaluate_limits-IsCoherent r config now g =
    let c = settle-IsCoherent (approval_reason r config) r config now g in
    record {
      request = ground (arith, c.request);
      mode_of = ground (arith, c.mode_of);
      refused = ground (arith, c.refused);
      asks = ground (arith, c.asks);
      never_limited = ground (arith, c.never_limited);
    }

evaluate_as-IsCoherent :
    (mode : AutonomyMode) (r : ExecutionRequest) (m : AutonomyModeManager) (now today : ℕ)
    (g : ExecutionGate)
    → IsCoherent r mode (evaluate_as mode r m now today g).0
unfolding evaluate_as evaluate_governed evaluate_unbounded
evaluate_as-IsCoherent unbounded r m now today g = record {
  request = refl;
  mode_of = refl;
  refused = ground arith;
  asks = ground arith;
  never_limited = λ e. cc;
}
evaluate_as-IsCoherent governed r m now today g =
    evaluate_limits-IsCoherent r m.governed_config now (maybe_reset_daily_limits r.agent_id today g)

-- Every decision answers its request in the agent's mode; it refuses exactly if it is BLOCKED, asks
-- for approval exactly if it is PENDING_APPROVAL, and it is never RATE_LIMITED.
pub evaluate-IsCoherent :
    (r : ExecutionRequest) (m : AutonomyModeManager) (now today : ℕ) (g : ExecutionGate)
    → IsCoherent r (get_mode r.agent_id m) (evaluate r m now today g).0
unfolding evaluate
evaluate-IsCoherent r m now today g = evaluate_as-IsCoherent (get_mode r.agent_id m) r m now today g
