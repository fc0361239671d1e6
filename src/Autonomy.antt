-- ===== src/Autonomy.antt =====
-- shared/agent/autonomy_mode.py: the two autonomy modes, their configurations, and the manager
-- that switches agents between them. A time stamp is an argument of the operation that takes it;
-- the id of a transition, a text made of the agent and the time, is the pair of the two.
mod Config
pub mod Replay
pub mod Access
pub mod Tests
pub use Config.{
  AutonomyMode, unbounded, governed, RiskLevel, low, medium, high, critical, AuditLevel, minimal,
  standard, full, UnboundedModeConfig, GovernedModeConfig,
}
unfoldable pub use Config.{same_mode, default_unbounded, default_governed}
use rg_agent_engine.Base.{
  ℕ, Bool, true, false, not, ◌&&◌, Option, none, some, List, [], ◌∷◌, ◌++◌, Key, is_empty, ◌==◌,
  if◌then◌else◌,
}
use rg_agent_engine.Base.Lists.{member, remove_first, keep_if, last_items}
use rg_agent_engine.Base.Dict.{Dict, get, get_or, put}

pub record ModeTransition : Type 0 where
  pub id : Key × ℕ
  pub agent_id : Key
  pub from_mode : AutonomyMode
  pub to_mode : AutonomyMode
  pub initiated_by : Key
  pub reason : Key
  pub timestamp : ℕ
  pub approved_by : Option Key

pub record AutonomyModeManager : Type 0 where
  pub default_mode : AutonomyMode
  pub unbounded_config : UnboundedModeConfig
  pub governed_config : GovernedModeConfig
  pub agent_modes : Dict AutonomyMode
  pub allowed_unbounded_users : List Key
  pub allowed_unbounded_agents : List Key
  pub allowed_unbounded_roles : List Key
  pub transitions : List ModeTransition

-- `AutonomyModeManager(default_mode, unbounded_config, governed_config)`; the role names are the
-- three texts "admin", "researcher", "internal", any of them distinct and not empty
unfoldable pub new_manager :
    AutonomyMode → UnboundedModeConfig → GovernedModeConfig → AutonomyModeManager
new_manager mode u g = record {
  default_mode = mode;
  unbounded_config = u;
  governed_config = g;
  agent_modes = [];
  allowed_unbounded_users = [];
  allowed_unbounded_agents = [];
  allowed_unbounded_roles = 1 ∷ 2 ∷ 3 ∷ [];
  transitions = [];
}

unfoldable pub get_mode : Key → AutonomyModeManager → AutonomyMode
get_mode agent_id m = get_or agent_id m.default_mode m.agent_modes

-- `get_config` returns one of two classes.
pub data ModeConfig : Type 0 where
  unbounded_mode : UnboundedModeConfig → ModeConfig
  governed_mode : GovernedModeConfig → ModeConfig

unfoldable pub get_config_for_mode : AutonomyMode → AutonomyModeManager → ModeConfig
get_config_for_mode unbounded m = unbounded_mode m.unbounded_config
get_config_for_mode governed m = governed_mode m.governed_config

unfoldable pub get_config : Key → AutonomyModeManager → ModeConfig
unfolding get_config_for_mode
get_config agent_id m = get_config_for_mode (get_mode agent_id m) m

-- `user_role and user_role in self.allowed_unbounded_roles`
abbrev role_allowed : Option Key → List Key → Bool
role_allowed none roles = false
role_allowed (some role) roles = not (is_empty role) && member role roles

unfoldable pub can_switch_to_unbounded : Key → Key → Option Key → AutonomyModeManager → Bool
can_switch_to_unbounded user_id agent_id user_role m =
    if member user_id m.allowed_unbounded_users
    then true
    else if member agent_id m.allowed_unbounded_agents
    then true
    else if role_allowed user_role m.allowed_unbounded_roles
    then true
    else false

pub data SwitchMessage : Type 0 where
  already_in switched_to : AutonomyMode → SwitchMessage
  unauthorized : SwitchMessage

abbrev is_unbounded_mode : AutonomyMode → Bool
is_unbounded_mode unbounded = true
is_unbounded_mode governed = false

abbrev transition : Key → AutonomyMode → AutonomyMode → Key → Key → ℕ → ModeTransition
transition agent_id old new user_id why now = record {
  id = (agent_id, now);
  agent_id = agent_id;
  from_mode = old;
  to_mode = new;
  initiated_by = user_id;
  reason = why;
  timestamp = now;
  approved_by = if is_unbounded_mode new then some user_id else none;
}

-- The part of `switch_mode` behind its guards: record the transition, apply the change.
record_switch : Key → AutonomyMode → Key → Key → ℕ → AutonomyModeManager → AutonomyModeManager
record_switch agent_id new user_id why now m = record m {
  transitions = m.transitions ++ transition agent_id (get_mode agent_id m) new user_id why now ∷ [];
  agent_modes = put agent_id new m.agent_modes;
}

-- Returns success, the message, and the manager.
unfoldable pub switch_mode :
    Key
    → AutonomyMode
    → Key
    → Option Key
    → Key
    → ℕ
    → AutonomyModeManager
    → Bool × SwitchMessage × AutonomyModeManager
unfolding record_switch
switch_mode agent_id new user_id user_role why now m =
    if same_mode (get_mode agent_id m) new
    then (true, already_in new, m)
    else if is_unbounded_mode new && not (can_switch_to_unbounded user_id agent_id user_role m)
    then (false, unauthorized, m)
    else (true, switched_to new, record_switch agent_id new user_id why now m)

-- `reason or "Emergency reset to GOVERNED mode"`, that text being `emergency`
unfoldable pub reset_to_governed :
    Key → Key → Key → Key → ℕ → AutonomyModeManager → Bool × SwitchMessage × AutonomyModeManager
unfolding switch_mode
reset_to_governed emergency agent_id user_id why now =
    switch_mode agent_id governed user_id none (if is_empty why then emergency else why) now

unfoldable pub get_transitions : Option Key → ℕ → AutonomyModeManager → List ModeTransition
get_transitions agent_id limit m = last_items limit (elim agent_id [
  | none ↦ m.transitions
  | some a ↦ if is_empty a then m.transitions else keep_if (λ t. t.agent_id == a) m.transitions
])

-- `if k not in xs: xs.append(k)`, and `if k in xs: xs.remove(k)`
abbrev add_once : Key → List Key → List Key
add_once k xs = if member k xs then xs else xs ++ k ∷ []

abbrev drop_once : Key → List Key → List Key
drop_once k xs = if member k xs then remove_first k xs else xs

unfoldable pub add_unbounded_user : Key → AutonomyModeManager → AutonomyModeManager
add_unbounded_user user_id m = record m {
  allowed_unbounded_users = add_once user_id m.allowed_unbounded_users;
}

unfoldable pub remove_unbounded_user : Key → AutonomyModeManager → AutonomyModeManager
remove_unbounded_user user_id m = record m {
  allowed_unbounded_users = drop_once user_id m.allowed_unbounded_users;
}

unfoldable pub add_unbounded_agent : Key → AutonomyModeManager → AutonomyModeManager
add_unbounded_agent agent_id m = record m {
  allowed_unbounded_agents = add_once agent_id m.allowed_unbounded_agents;
}

unfoldable pub remove_unbounded_agent : Key → AutonomyModeManager → AutonomyModeManager
remove_unbounded_agent agent_id m = record m {
  allowed_unbounded_agents = drop_once agent_id m.allowed_unbounded_agents;
}

unfoldable pub is_unbounded : Key → AutonomyModeManager → Bool
unfolding get_mode same_mode
is_unbounded agent_id m = same_mode (get_mode agent_id m) unbounded

unfoldable pub is_governed : Key → AutonomyModeManager → Bool
unfolding get_mode same_mode
is_governed agent_id m = same_mode (get_mode agent_id m) governed

-- The calls that change a manager.
pub data Op : Type 0 where
  switch : Key → AutonomyMode → Key → Option Key → Key → ℕ → Op
  reset : Key → Key → Key → Key → ℕ → Op
  add_user remove_user add_agent remove_agent : Key → Op

unfoldable pub apply : Op → AutonomyModeManager → AutonomyModeManager
unfolding switch_mode reset_to_governed add_unbounded_user remove_unbounded_user add_unbounded_agent
    remove_unbounded_agent
apply (switch agent_id new user_id role why now) m =
    (switch_mode agent_id new user_id role why now m).2
apply (reset emergency agent_id user_id why now) m =
    (reset_to_governed emergency agent_id user_id why now m).2
apply (add_user k) m = add_unbounded_user k m
apply (remove_user k) m = remove_unbounded_user k m
apply (add_agent k) m = add_unbounded_agent k m
apply (remove_agent k) m = remove_unbounded_agent k m

unfoldable pub run : List Op → AutonomyModeManager → AutonomyModeManager
run [] m = m
run (op ∷ ops) m = run ops (apply op m)
