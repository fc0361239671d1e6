-- ===== src/Autonomy/Tests.antt =====
-- shared/agent/autonomy_mode.py: a manager, some calls on it, and runs of them.
use rg_agent_engine.Base.{◌≡◌, refl, true, some, none, List, [], ◌∷◌, ◌++◌}
use rg_agent_engine.Base.Dict.{get, put}
use rg_agent_engine.Autonomy.{
  AutonomyModeManager, unbounded, governed, default_unbounded, default_governed, new_manager,
  get_mode, add_unbounded_user, can_switch_to_unbounded, switch_mode, same_mode, is_unbounded, Op,
  switch, add_user, apply, run, switched_to, unauthorized,
}
use rg_agent_engine.Autonomy.Replay.{IsReplayed, run-IsReplayed}
use rg_agent_engine.Autonomy.Access.{Authorizes, run_unbounded_authorized}

abbrev pub manager : AutonomyModeManager
manager = new_manager governed default_unbounded default_governed

-- A stranger is refused, a researcher is not; the agent is taken back.
abbrev session : List Op
session = switch 7 unbounded 9 none 5 100 ∷ switch 7 unbounded 9 (some 2) 5 101 ∷ []

stranger_refused : (switch_mode 7 unbounded 9 none 5 100 manager).1 ≡ unauthorized
unfolding switch_mode new_manager get_mode get can_switch_to_unbounded same_mode
stranger_refused = refl

researcher_switched : (switch_mode 7 unbounded 9 (some 2) 5 100 manager).1 ≡ switched_to unbounded
unfolding switch_mode new_manager get_mode get can_switch_to_unbounded same_mode
researcher_switched = refl

user_on_the_list : is_unbounded 7 (run (add_user 9 ∷ session) manager) ≡ true
unfolding is_unbounded run apply switch_mode new_manager get_mode get put can_switch_to_unbounded
    same_mode add_unbounded_user
user_on_the_list = refl

starts_governed : get_mode 7 manager ≡ governed
unfolding new_manager get_mode get
starts_governed = refl

ends_unbounded : get_mode 7 (run session manager) ≡ unbounded
unfolding run apply switch_mode new_manager get_mode get put can_switch_to_unbounded same_mode
ends_unbounded = refl

run_unbounded_authorized_example :
    (before : List Op) × (op : Op) × (rest : List Op) × (session ≡ before ++ op ∷ rest)
    × Authorizes op 7 (run before manager)
run_unbounded_authorized_example =
    run_unbounded_authorized session manager 7 starts_governed ends_unbounded

run-IsReplayed_example : IsReplayed (run session manager)
run-IsReplayed_example = run-IsReplayed governed default_unbounded default_governed session
