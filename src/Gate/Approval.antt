-- ===== src/Gate/Approval.antt =====
-- shared/agent/execution_gate.py: approvals, the quick check, and the mode without limits.
use rg_agent_engine.Base.{
  ℕ, ◌≡◌, refl, true, false, some, List, [], ◌∷◌, ◌++◌, Key, ◌==◌, if◌then◌else◌, arith, Bool-cases,
  inl, inr,
}
use rg_agent_engine.Base.Int.{◌+ℤ◌}
use rg_agent_engine.Base.Dict.{get-put}
use rg_agent_engine.Autonomy.{unbounded, governed, AutonomyModeManager, get_mode}
use rg_agent_engine.Gate.Types.{ExecutionRequest, ExecutionRecord, DecisionType, allowed}
use rg_agent_engine.Gate.State.{ExecutionGate, spent, maybe_reset_daily_limits}
use rg_agent_engine.Gate.Evaluate.{evaluate, evaluate_as, evaluate_governed, evaluate_unbounded}
use rg_agent_engine.Gate.Calls.{find_record, set_decision, mark_approved, can_execute}
use rg_agent_engine.Gate.Budget.{evaluate_limits-spent}
use rg_agent_engine.Gate.Records.{entry}

pub find_record-set_decision :
    (id : Key) (d : DecisionType) (rs : List ExecutionRecord) (r : ExecutionRecord)
    → find_record id rs ≡ some r
    → find_record id (set_decision id d rs) ≡ some (record r { decision = d })
unfolding find_record set_decision
find_record-set_decision id d [] r h = cc
find_record-set_decision id d (x ∷ rs) r h = elim (Bool-cases (x.request_id == id)) [
  | inl here ↦ rw here (ground (arith, rw here at h))
  | inr further ↦ rw (further, further) (find_record-set_decision id d rs r (rw further at h))
]

-- Approving a recorded request, whatever its decision was, turns the decision of its first record
-- into ALLOWED and adds the cost of that record to the day's spending of its agent, and of no other.
pub mark_approved_lem :
    (id : Key) (g : ExecutionGate) {r : ExecutionRecord}
    → find_record id g.execution_history ≡ some r
    → let (done, g') = mark_approved id g in
      (done ≡ true)
      × (find_record id g'.execution_history ≡ some (record r { decision = allowed }))
      × ((a : Key)
          → spent a g' ≡ (if r.agent_id == a then spent r.agent_id g +ℤ r.cost else spent a g))
unfolding mark_approved spent
mark_approved_lem id g {r} h = (
  rw (h, mark_approved),
  rw (h, mark_approved) (find_record-set_decision id allowed g.execution_history r h),
  λ a.
      rw (h, mark_approved)
        (ground (arith, get-put r.agent_id a (spent r.agent_id g +ℤ r.cost) g.daily_spend)),
)

-- A second approval of the same request is accepted like the first, and counts its cost again.
pub mark_approved_twice :
    (id : Key) (g : ExecutionGate) {r : ExecutionRecord}
    → find_record id g.execution_history ≡ some r
    → let (first, g') = mark_approved id g in
      let (second, g'') = mark_approved id g' in
      (first ≡ true)
      × (second ≡ true)
      × (spent r.agent_id g'' ≡ spent r.agent_id g +ℤ r.cost +ℤ r.cost)
mark_approved_twice id g {r} h =
    let g' = (mark_approved id g).1 in
    let (done, found, counted) = mark_approved_lem id g h in
    let (done', found', counted') = mark_approved_lem id g' found in
    (done, done', ground (arith, counted r.agent_id, counted' r.agent_id))

can_execute_as :
    (r : ExecutionRequest) (m : AutonomyModeManager) (now today : ℕ) (g : ExecutionGate)
    → get_mode r.agent_id m ≡ governed
    → evaluate r m now today g ≡ evaluate_governed r m.governed_config now today g
unfolding evaluate evaluate_as
can_execute_as r m now today g h = rw h

-- The quick check is no mere check: in the governed mode a positive answer has spent the estimated
-- cost from the day's budget.
pub can_execute_spends :
    (r : ExecutionRequest) (m : AutonomyModeManager) (now today : ℕ) (g : ExecutionGate)
    → get_mode r.agent_id m ≡ governed
    → (can_execute r m now today g).0 ≡ true
    → spent r.agent_id (can_execute r m now today g).1
      ≡ spent r.agent_id (maybe_reset_daily_limits r.agent_id today g) +ℤ r.estimated_cost
unfolding can_execute
can_execute_spends r m now today g gov h =
    let e = can_execute_as r m now today g gov in
    let h' = rw e at h in
    rw e (
      unfold evaluate_governed in
      let g' = maybe_reset_daily_limits r.agent_id today g in
      ground (arith, h', evaluate_limits-spent r m.governed_config now g' r.agent_id))

-- In the unbounded mode every action is allowed with no approval and no spending is counted; it is
-- recorded exactly if the audit is on.
pub evaluate_unbounded_lem :
    (r : ExecutionRequest) (m : AutonomyModeManager) (now today : ℕ) (g : ExecutionGate)
    → get_mode r.agent_id m ≡ unbounded
    → let (d, g') = evaluate r m now today g in
      (d.decision ≡ allowed)
      × (d.is_allowed ≡ true)
      × (d.requires_approval ≡ false)
      × ((a : Key) → spent a g' ≡ spent a g)
      × (g'.execution_history ≡ (
          if m.unbounded_config.audit_enabled
          then g.execution_history ++ entry r unbounded allowed now ∷ []
          else g.execution_history))
unfolding evaluate evaluate_as evaluate_unbounded spent
evaluate_unbounded_lem r m now today g h = rw h (refl, refl, refl, λ a. ground arith, ground arith)
