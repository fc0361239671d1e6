-- ===== src/Autonomy/Access.antt =====
-- shared/agent/autonomy_mode.py: who can take an agent into the unbounded mode, and back.
use rg_agent_engine.Base.{
  ℕ, ◌≡◌, ◌==◌, ◌⊎◌, inl, inr, refl, ap, true, Option, none, List, [], ◌∷◌, ◌++◌, Key, is_empty,
  if◌then◌else◌, arith,
}
use rg_agent_engine.Base.Dict.{get-put}
use rg_agent_engine.Autonomy.{
  AutonomyMode, unbounded, governed, same_mode, AutonomyModeManager, get_mode,
  can_switch_to_unbounded, switch_mode, reset_to_governed, Op, switch, reset, add_user, remove_user,
  add_agent, remove_agent, apply, run,
}

-- The call switches this agent to the unbounded mode, for a user who is allowed to.
abbrev pub Authorizes : Op → Key → AutonomyModeManager → Type 0
Authorizes (switch agent_id new user_id role why now) a m =
    (agent_id ≡ a) × (new ≡ unbounded) × (can_switch_to_unbounded user_id a role m ≡ true)
Authorizes _ a m = ⊥

switch_mode_authorized :
    (agent_id : Key) (new : AutonomyMode) (user_id : Key) (role : Option Key) (why : Key) (now : ℕ)
    (m : AutonomyModeManager) (a : Key)
    → get_mode a m ≡ governed
    → get_mode a (switch_mode agent_id new user_id role why now m).2 ≡ unbounded
    → (agent_id ≡ a) × (new ≡ unbounded) × (can_switch_to_unbounded user_id a role m ≡ true)
unfolding switch_mode get_mode same_mode
switch_mode_authorized agent_id new user_id role why now m a old h =
    ground (arith, get-put agent_id a new m.agent_modes)

apply_authorized :
    (op : Op) (m : AutonomyModeManager) (a : Key)
    → get_mode a m ≡ governed
    → get_mode a (apply op m) ≡ unbounded
    → Authorizes op a m
unfolding apply
apply_authorized (switch agent_id new user_id role why now) m a old h =
    switch_mode_authorized agent_id new user_id role why now m a old h
apply_authorized (reset e agent_id user_id why now) m a old h =
    let why' = if is_empty why then e else why in
    cc ((switch_mode_authorized agent_id governed user_id none why' now m a old h).1)
apply_authorized (add_user k) m a old h = unfold get_mode in cc
apply_authorized (remove_user k) m a old h = unfold get_mode in cc
apply_authorized (add_agent k) m a old h = unfold get_mode in cc
apply_authorized (remove_agent k) m a old h = unfold get_mode in cc

AutonomyMode-cases : (x : AutonomyMode) → (x ≡ unbounded) ⊎ (x ≡ governed)
AutonomyMode-cases unbounded = inl refl
AutonomyMode-cases governed = inr refl

-- An agent that was governed and is unbounded after some calls was switched by one of them, for a
-- user who was allowed to switch that agent at the time of the call.
pub run_unbounded_authorized :
    (ops : List Op) (m : AutonomyModeManager) (a : Key)
    → get_mode a m ≡ governed
    → get_mode a (run ops m) ≡ unbounded
    → (before : List Op) × (op : Op) × (rest : List Op) × (ops ≡ before ++ op ∷ rest)
      × Authorizes op a (run before m)
unfolding run
run_unbounded_authorized [] m a old h = cc
run_unbounded_authorized (op ∷ ops) m a old h =
    elim (AutonomyMode-cases (get_mode a (apply op m))) [
      | inl now ↦ ([], op, ops, refl, apply_authorized op m a old now)
      | inr still ↦
          let (before, switched, rest, e, ok) =
            run_unbounded_authorized ops (apply op m) a still h in
          (op ∷ before, switched, rest, ap (λ (l : List Op). op ∷ l) e, ok)
    ]

-- The emergency reset always reports success and leaves its agent governed; the modes of the other
-- agents and the lists of who may switch are as before.
pub reset_to_governed_lem :
    (emergency agent_id user_id why : Key) (now : ℕ) (m : AutonomyModeManager)
    → let (success, _, m') = reset_to_governed emergency agent_id user_id why now m in
      (success ≡ true)
      × ((a : Key) → get_mode a m' ≡ (if agent_id == a then governed else get_mode a m))
      × (m'.allowed_unbounded_users ≡ m.allowed_unbounded_users)
      × (m'.allowed_unbounded_agents ≡ m.allowed_unbounded_agents)
      × (m'.allowed_unbounded_roles ≡ m.allowed_unbounded_roles)
unfolding reset_to_governed get_mode same_mode
reset_to_governed_lem emergency agent_id user_id why now m = (
  ground arith,
  λ a. ground (arith, get-put agent_id a governed m.agent_modes),
  ground arith,
  ground arith,
  ground arith,
)
