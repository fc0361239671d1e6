-- ===== src/Autonomy/Replay.antt =====
-- shared/agent/autonomy_mode.py: the log of transitions, and the modes.
use rg_agent_engine.Base.{
  ◌≡◌, ◌≢◌, refl, List, [], ◌∷◌, ◌++◌, Key, ◌==◌, if◌then◌else◌, arith, Bool-cases, inl, inr, true,
  false, Option, none, ℕ, not, ◌&&◌, is_empty,
}
use rg_agent_engine.Base.Dict.{get, get-put}
use rg_agent_engine.Autonomy.{
  AutonomyMode, governed, same_mode, ModeTransition, AutonomyModeManager, new_manager,
  UnboundedModeConfig, GovernedModeConfig, get_mode, can_switch_to_unbounded, switch_mode, Op,
  switch, reset, add_user, remove_user, add_agent, remove_agent, apply, run, record_switch,
  transition, is_unbounded_mode,
}

-- An assignment of modes to agents, and the assignment that a log leads to.
abbrev pub Modes : Type 0
Modes = Key → AutonomyMode

abbrev pub after : Modes → ModeTransition → Modes
after f t a = if t.agent_id == a then t.to_mode else f a

unfoldable pub replay : Modes → List ModeTransition → Modes
replay f [] = f
replay f (t ∷ ts) = replay (after f t) ts

-- Each record starts from the mode that the records before it left its agent in, and changes it.
abbrev pub IsChain : Modes → List ModeTransition → Type 0
IsChain f [] = Unit
IsChain f (t ∷ ts) =
    (t.from_mode ≡ f t.agent_id) × (t.from_mode ≢ t.to_mode) × IsChain (after f t) ts

replay-append :
    (f : Modes) (ts : List ModeTransition) (t : ModeTransition) (a : Key)
    → replay f (ts ++ t ∷ []) a ≡ after (replay f ts) t a
unfolding replay
replay-append f [] t a = refl
replay-append f (s ∷ ts) t a = replay-append (after f s) ts t a

IsChain-append :
    (f : Modes) (ts : List ModeTransition) (t : ModeTransition)
    → IsChain f ts
    → t.from_mode ≡ replay f ts t.agent_id
    → t.from_mode ≢ t.to_mode
    → IsChain f (ts ++ t ∷ [])
unfolding replay
IsChain-append f [] t h e ne = (e, ne, tt)
IsChain-append f (s ∷ ts) t h e ne = (h.0, h.1, IsChain-append (after f s) ts t h.2 e ne)

-- The modes are those that the log leads to, from the default mode for every agent.
pub record IsReplayed (m : AutonomyModeManager) : Type 0 where
  pub modes : (a : Key) → get_mode a m ≡ replay (λ _. m.default_mode) m.transitions a
  pub chain : IsChain (λ _. m.default_mode) m.transitions

same_mode-eq : (a b : AutonomyMode) → same_mode a b ≡ true → a ≡ b
unfolding same_mode
same_mode-eq a b h = ground arith

same_mode-ne : (a b : AutonomyMode) → same_mode a b ≡ false → a ≢ b
unfolding same_mode
same_mode-ne a b h = ground arith

record_switch-IsReplayed :
    (agent_id : Key) (new : AutonomyMode) (user_id why : Key) (now : ℕ) (m : AutonomyModeManager)
    → IsReplayed m
    → get_mode agent_id m ≢ new
    → IsReplayed (record_switch agent_id new user_id why now m)
unfolding record_switch get_mode
record_switch-IsReplayed agent_id new user_id why now m h ne = record {
  modes = λ a. rw replay-append (ground (arith, get-put agent_id a new m.agent_modes, h.modes a));
  chain =
      IsChain-append (λ _. m.default_mode) m.transitions
        (transition agent_id (get_mode agent_id m) new user_id why now) h.chain (h.modes agent_id)
        ne;
}

switch_mode-IsReplayed :
    (agent_id : Key) (new : AutonomyMode) (user_id : Key) (role : Option Key) (why : Key) (now : ℕ)
    (m : AutonomyModeManager)
    → IsReplayed m
    → IsReplayed (switch_mode agent_id new user_id role why now m).2
unfolding switch_mode
switch_mode-IsReplayed agent_id new user_id role why now m h =
    elim (Bool-cases (same_mode (get_mode agent_id m) new)) [
      | inl same ↦ rw same h
      | inr other ↦
          elim (Bool-cases
            (is_unbounded_mode new && not (can_switch_to_unbounded user_id agent_id role m))) [
              | inl refused ↦ rw (other, refused) h
              | inr granted ↦
                  rw (other, granted)
                    (record_switch-IsReplayed agent_id new user_id why now m h
                      (same_mode-ne _ _ other))
            ]
    ]

apply-IsReplayed : (op : Op) (m : AutonomyModeManager) → IsReplayed m → IsReplayed (apply op m)
unfolding apply get_mode
apply-IsReplayed (switch a new u role why now) m h = switch_mode-IsReplayed a new u role why now m h
apply-IsReplayed (reset e a u why now) m h =
    switch_mode-IsReplayed a governed u none (if is_empty why then e else why) now m h
apply-IsReplayed (add_user k) m h = record { modes = h.modes; chain = h.chain }
apply-IsReplayed (remove_user k) m h = record { modes = h.modes; chain = h.chain }
apply-IsReplayed (add_agent k) m h = record { modes = h.modes; chain = h.chain }
apply-IsReplayed (remove_agent k) m h = record { modes = h.modes; chain = h.chain }

run_from-IsReplayed :
    (ops : List Op) (m : AutonomyModeManager) → IsReplayed m → IsReplayed (run ops m)
unfolding run
run_from-IsReplayed [] m h = h
run_from-IsReplayed (op ∷ ops) m h = run_from-IsReplayed ops (apply op m) (apply-IsReplayed op m h)

-- After any calls on a new manager, the mode of every agent is the one that the recorded
-- transitions lead to from the default mode, and each recorded transition starts from the mode
-- that those before it left its agent in and changes it.
pub run-IsReplayed :
    (mode : AutonomyMode) (u : UnboundedModeConfig) (g : GovernedModeConfig) (ops : List Op)
    → IsReplayed (run ops (new_manager mode u g))
run-IsReplayed mode u g ops =
    run_from-IsReplayed ops (new_manager mode u g)
      (unfold new_manager get_mode replay get in record { modes = λ a. refl; chain = tt })
