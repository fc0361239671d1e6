-- ===== src/Gate/Budget.antt =====
-- shared/agent/execution_gate.py: the daily budget.
use rg_agent_engine.Base.{
  ℕ, ◌≡◌, inl, inr, refl, true, false, none, some, Option, List, [], ◌∷◌, Key, ◌==◌, if◌then◌else◌,
  arith, Bool-cases, Option-cases, Bool, ◌&&◌, not,
}
use rg_agent_engine.Base.Int.{pos, ◌+ℤ◌, Limit, exceeds, Within, exceeds-false, Within-if}
use rg_agent_engine.Base.Lists.{All}
use rg_agent_engine.Base.Dict.{get, get-put}
use rg_agent_engine.Autonomy.{
  unbounded, governed, GovernedModeConfig, UnboundedModeConfig, AutonomyModeManager, AutonomyMode,
  get_mode,
}
use mathlib.Core.Path.{subst}
use rg_agent_engine.Gate.Types.{
  ExecutionRequest, DecisionType, Reason, allowed, blocked, pending_approval,
}
use rg_agent_engine.Gate.State.{
  ExecutionGate, new_gate, spent, record_execution, is_today, maybe_reset_daily_limits,
}
use rg_agent_engine.Gate.Evaluate.{
  evaluate, approval_reason, evaluate_governed, evaluate_unbounded, evaluate_limits, evaluate_as,
  settle,
}
use rg_agent_engine.Gate.Calls.{
  Call, ask, quick_ask, read_spend, read_executions, read_remaining, approve, reject, step, run,
  can_execute, remaining_as, get_daily_spend, get_daily_executions, get_remaining_budget,
  mark_rejected,
}

abbrev is_none : Option Reason → Bool
is_none none = true
is_none (some _) = false

-- No agent has spent more than the limit on the day of its last reset.
abbrev pub IsWithinBudget : Limit → ExecutionGate → Type 0
IsWithinBudget l g = (a : Key) → Within (spent a g) l

spent-record_execution :
    (r : ExecutionRequest) (m : AutonomyMode) (d : DecisionType) (now : ℕ) (g : ExecutionGate)
    (a : Key)
    → spent a (record_execution r m d now g) ≡ spent a g
unfolding record_execution spent
spent-record_execution r m d now g a = refl

-- What the daily reset leaves, for the agent that is reset and for the others.
pub spent-maybe_reset :
    (agent_id : Key) (today : ℕ) (g : ExecutionGate) (a : Key)
    → spent a (maybe_reset_daily_limits agent_id today g) ≡ (
        if agent_id == a && not (is_today today (get agent_id g.last_daily_reset))
        then pos 0
        else spent a g)
unfolding maybe_reset_daily_limits spent
spent-maybe_reset agent_id today g a = ground (arith, get-put agent_id a (pos 0) g.daily_spend)

maybe_reset-IsWithinBudget :
    (l : Limit) (agent_id : Key) (today : ℕ) (g : ExecutionGate)
    → Within (pos 0) l
    → IsWithinBudget l g
    → IsWithinBudget l (maybe_reset_daily_limits agent_id today g)
maybe_reset-IsWithinBudget l agent_id today g z h a =
    rw (spent-maybe_reset agent_id today g a)
      (Within-if _ (pos 0) (spent a g) l (λ _. z) (λ _. h a))

settle-spent :
    (why : Option Reason) (r : ExecutionRequest) (config : GovernedModeConfig) (now : ℕ)
    (g : ExecutionGate) (a : Key)
    → spent a (settle why r config now g).1 ≡ (
        if r.agent_id == a && is_none why
        then spent r.agent_id g +ℤ r.estimated_cost
        else spent a g)
unfolding settle spent record_execution
settle-spent none r config now g a =
    ground (arith, get-put r.agent_id a (spent r.agent_id g +ℤ r.estimated_cost) g.daily_spend)
settle-spent (some why) r config now g a = ground arith

-- The spending after the limits are applied: the cost counts exactly if the decision allows the
-- action without approval.
pub evaluate_limits-spent :
    (r : ExecutionRequest) (config : GovernedModeConfig) (now : ℕ) (g : ExecutionGate) (a : Key)
    → let (d, g') = evaluate_limits r config now g in
      spent a g' ≡ (
        if r.agent_id == a && (d.is_allowed && not d.requires_approval)
        then spent r.agent_id g +ℤ r.estimated_cost
        else spent a g)
unfolding evaluate_limits settle
evaluate_limits-spent r config now g a = elim (Option-cases (approval_reason r config)) [
  | inl e ↦ ground (
    arith,
    settle-spent none r config now g a,
    spent-record_execution r governed blocked now g a,
    spent-record_execution r governed pending_approval now g a,
  )
  | inr (why, e) ↦ ground (
    arith,
    settle-spent (some why) r config now g a,
    spent-record_execution r governed blocked now g a,
    spent-record_execution r governed pending_approval now g a,
  )
]

and_right : (a b : Bool) → (a && b) ≡ true → b ≡ true
and_right a b h = ground arith

evaluate_limits-fits :
    (r : ExecutionRequest) (config : GovernedModeConfig) (now : ℕ) (g : ExecutionGate)
    → let d = (evaluate_limits r config now g).0 in
      (d.is_allowed && not d.requires_approval) ≡ true
      → Within (spent r.agent_id g +ℤ r.estimated_cost) config.max_budget_per_day
unfolding evaluate_limits
evaluate_limits-fits r config now g h =
    elim (Bool-cases (exceeds (spent r.agent_id g +ℤ r.estimated_cost) config.max_budget_per_day)) [
      | inl over ↦ cc (rw over at h)
      | inr fits ↦ exceeds-false _ config.max_budget_per_day fits
    ]

evaluate_limits-IsWithinBudget :
    (r : ExecutionRequest) (config : GovernedModeConfig) (now : ℕ) (g : ExecutionGate)
    → IsWithinBudget config.max_budget_per_day g
    → IsWithinBudget config.max_budget_per_day (evaluate_limits r config now g).1
evaluate_limits-IsWithinBudget r config now g h a =
    let d = (evaluate_limits r config now g).0 in
    let free = d.is_allowed && not d.requires_approval in
    let after = spent r.agent_id g +ℤ r.estimated_cost in
    rw (evaluate_limits-spent r config now g a) (
      Within-if (r.agent_id == a && free) after (spent a g) config.max_budget_per_day
        (λ e. evaluate_limits-fits r config now g (and_right (r.agent_id == a) free e)) (λ _. h a))

evaluate_unbounded-spent :
    (r : ExecutionRequest) (config : UnboundedModeConfig) (now : ℕ) (g : ExecutionGate) (a : Key)
    → spent a (evaluate_unbounded r config now g).1 ≡ spent a g
unfolding evaluate_unbounded
evaluate_unbounded-spent r config now g a =
    ground (arith, spent-record_execution r unbounded allowed now g a)

evaluate_as-IsWithinBudget :
    (mode : AutonomyMode) (r : ExecutionRequest) (m : AutonomyModeManager) (now today : ℕ)
    (g : ExecutionGate)
    → Within (pos 0) m.governed_config.max_budget_per_day
    → IsWithinBudget m.governed_config.max_budget_per_day g
    → IsWithinBudget m.governed_config.max_budget_per_day (evaluate_as mode r m now today g).1
unfolding evaluate_as evaluate_governed
evaluate_as-IsWithinBudget unbounded r m now today g z h a =
    rw (evaluate_unbounded-spent r m.unbounded_config now g a) (h a)
evaluate_as-IsWithinBudget governed r m now today g z h a =
    let l = m.governed_config.max_budget_per_day in
    evaluate_limits-IsWithinBudget r m.governed_config now
      (maybe_reset_daily_limits r.agent_id today g)
      (maybe_reset-IsWithinBudget l r.agent_id today g z h) a

evaluate-IsWithinBudget :
    (l : Limit) (r : ExecutionRequest) (m : AutonomyModeManager) (now today : ℕ) (g : ExecutionGate)
    → Within (pos 0) l
    → m.governed_config.max_budget_per_day ≡ l
    → IsWithinBudget l g
    → IsWithinBudget l (evaluate r m now today g).1
unfolding evaluate
evaluate-IsWithinBudget l r m now today g z e h =
    subst (λ k. IsWithinBudget k (evaluate_as (get_mode r.agent_id m) r m now today g).1) e
      (evaluate_as-IsWithinBudget (get_mode r.agent_id m) r m now today g (rw e z) (rw e h))

remaining_as-IsWithinBudget :
    (mode : AutonomyMode) (l : Limit) (agent_id : Key) (m : AutonomyModeManager) (today : ℕ)
    (g : ExecutionGate)
    → Within (pos 0) l
    → IsWithinBudget l g
    → IsWithinBudget l (remaining_as mode agent_id m today g).1
unfolding remaining_as get_daily_spend
remaining_as-IsWithinBudget unbounded l agent_id m today g z h = h
remaining_as-IsWithinBudget governed l agent_id m today g z h =
    maybe_reset-IsWithinBudget l agent_id today g z h

mark_rejected-spent :
    (id : Key) (g : ExecutionGate) (a : Key) → spent a (mark_rejected id g).1 ≡ spent a g
unfolding mark_rejected spent
mark_rejected-spent id g a = ground arith

-- The calls whose manager has this daily budget, all but the approval of a pending request.
abbrev pub IsGuarded : Limit → Call → Type 0
IsGuarded l (ask r m now today) = m.governed_config.max_budget_per_day ≡ l
IsGuarded l (quick_ask r m now today) = m.governed_config.max_budget_per_day ≡ l
IsGuarded l (approve request_id) = ⊥
IsGuarded l _ = Unit

step-IsWithinBudget :
    (l : Limit) (c : Call) (g : ExecutionGate)
    → Within (pos 0) l
    → IsGuarded l c
    → IsWithinBudget l g
    → IsWithinBudget l (step c g)
unfolding step can_execute get_daily_spend get_daily_executions get_remaining_budget
step-IsWithinBudget l (ask r m now today) g z e h = evaluate-IsWithinBudget l r m now today g z e h
step-IsWithinBudget l (quick_ask r m now today) g z e h =
    evaluate-IsWithinBudget l r m now today g z e h
step-IsWithinBudget l (read_spend a today) g z e h = maybe_reset-IsWithinBudget l a today g z h
step-IsWithinBudget l (read_executions a today) g z e h = maybe_reset-IsWithinBudget l a today g z h
step-IsWithinBudget l (read_remaining a m today) g z e h =
    remaining_as-IsWithinBudget (get_mode a m) l a m today g z h
step-IsWithinBudget l (approve request_id) g z e h = absurd e
step-IsWithinBudget l (reject request_id) g z e h =
    λ a. rw (mark_rejected-spent request_id g a) (h a)

run_from-IsWithinBudget :
    (l : Limit) (cs : List Call) (g : ExecutionGate)
    → Within (pos 0) l
    → All (IsGuarded l) cs
    → IsWithinBudget l g
    → IsWithinBudget l (run cs g)
unfolding run
run_from-IsWithinBudget l [] g z e h = h
run_from-IsWithinBudget l (c ∷ cs) g z e h =
    run_from-IsWithinBudget l cs (step c g) z e.1 (step-IsWithinBudget l c g z e.0 h)

-- On a new gate, under one daily budget of zero or more, no calls but approvals can make the day's
-- spending of any agent pass the budget, whatever the requests, their costs, the modes and the
-- days.
pub run-IsWithinBudget :
    (l : Limit) (cs : List Call)
    → Within (pos 0) l
    → All (IsGuarded l) cs
    → IsWithinBudget l (run cs new_gate)
run-IsWithinBudget l cs z e =
    run_from-IsWithinBudget l cs new_gate z e (unfold new_gate spent get in λ _. z)
