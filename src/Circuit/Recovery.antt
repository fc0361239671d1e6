-- ===== src/Circuit/Recovery.antt =====
-- shared/resilience/circuit_breaker.py: the way back from the open state.
use rg_agent_engine.Base.{ℕ, ◌+◌, ◌≤◌, ◌<◌, ◌≡◌, ◌≢◌, refl, List, [], ◌∷◌, arith}
use rg_agent_engine.Base.Lists.{All, length}
use rg_agent_engine.Circuit.Breaker.{
  closed, opened, half_open, CircuitBreaker, transition_to, check_state_transition, record_success,
  record_failure, admit, enter, Ending, returned, excluded, finish, call, CallAt, run, admitted,
}

-- Every call of the list ends in this way, if it is admitted.
abbrev pub AllEnd : Ending → List CallAt → Type 0
AllEnd e cs = All (λ (c : CallAt). c.ending ≡ e) cs

half_open_closes :
    (cs : List CallAt) (b : CircuitBreaker)
    → b.state ≡ half_open
    → b.success_count ≡ b.half_open_calls
    → b.success_count + length cs ≡ b.config.success_threshold
    → b.config.success_threshold ≤ b.config.half_open_max_calls
    → b.success_count < b.config.success_threshold
    → AllEnd returned cs
    → ((run cs b).state ≡ closed) × (admitted cs b ≡ length cs)
unfolding run admitted call enter admit check_state_transition finish record_success transition_to
half_open_closes [] b h same left fits some_left e = absurd (omega arith)
half_open_closes (c ∷ []) b h same left fits some_left e = (ground arith, ground arith)
half_open_closes (c ∷ d ∷ cs) b h same left fits some_left e =
    let b' = (call c.start c.ending c.later b).1 in
    let rest =
      half_open_closes (d ∷ cs) b' (ground arith) (ground arith) (ground arith) (ground arith)
        (ground arith) (e.1) in
    (ground (arith, rest.0), ground (arith, rest.1))

-- An open breaker closes again: if the threshold of successes is no more than the calls that the
-- half-open state lets through, and that many calls come, one after the other, of which the first
-- starts at the timeout or later and each returns if it is let through, then they are all let
-- through and the breaker is closed.
pub run_recovers :
    (c : CallAt) (cs : List CallAt) (b : CircuitBreaker)
    → b.state ≡ opened
    → b.last_state_change + b.config.timeout_seconds ≤ c.start
    → length (c ∷ cs) ≡ b.config.success_threshold
    → b.config.success_threshold ≤ b.config.half_open_max_calls
    → AllEnd returned (c ∷ cs)
    → ((run (c ∷ cs) b).state ≡ closed) × (admitted (c ∷ cs) b ≡ length (c ∷ cs))
unfolding run admitted call enter admit check_state_transition transition_to
run_recovers c cs b h late n fits e =
    let b' = transition_to half_open c.start b in
    let rest = half_open_closes (c ∷ cs) b' refl refl (ground arith) fits (ground arith) e in
    (ground (arith, rest.0), ground (arith, rest.1))

-- The breaker is not closed, and no success in the half-open state is one of another state's call.
IsAway : CircuitBreaker → Type 0
IsAway b =
    (b.state ≢ closed)
    × (b.state ≡ half_open
        → b.success_count ≤ b.half_open_calls × b.half_open_calls ≤ b.config.half_open_max_calls)

call-IsAway :
    (start : ℕ) (e : Ending) (later : ℕ) (b : CircuitBreaker)
    → b.config.half_open_max_calls < b.config.success_threshold
    → IsAway b
    → IsAway (call start e later b).1 × ((call start e later b).1.config ≡ b.config)
unfolding IsAway call enter admit check_state_transition finish record_success record_failure
    transition_to
call-IsAway start e later b few h = ground arith

run-IsAway :
    (cs : List CallAt) (b : CircuitBreaker)
    → b.config.half_open_max_calls < b.config.success_threshold
    → IsAway b
    → (run cs b).state ≢ closed
unfolding run IsAway
run-IsAway [] b few h = h.0
run-IsAway (c ∷ cs) b few h =
    let (away, same) = call-IsAway c.start c.ending c.later b few h in
    run-IsAway cs (call c.start c.ending c.later b).1 (ground arith) away

-- Under a configuration that lets fewer calls through in the half-open state than it needs
-- successes, an open breaker never closes, whatever calls come, one after the other, and however
-- they end.
pub run_never_closes :
    (cs : List CallAt) (b : CircuitBreaker)
    → b.state ≡ opened
    → b.config.half_open_max_calls < b.config.success_threshold
    → (run cs b).state ≢ closed
unfolding IsAway
run_never_closes cs b h few = run-IsAway cs b few (ground arith, ground arith)

wedged :
    (cs : List CallAt) (b : CircuitBreaker)
    → b.state ≡ half_open
    → b.config.half_open_max_calls ≤ b.half_open_calls
    → (run cs b ≡ b) × (admitted cs b ≡ 0)
unfolding run admitted call enter admit check_state_transition
wedged [] b h full = (refl, refl)
wedged (c ∷ cs) b h full =
    let (same, none_in) = wedged cs b h full in (ground (arith, same), ground (arith, none_in))

excluded_calls :
    (cs : List CallAt) (b : CircuitBreaker)
    → b.state ≡ half_open
    → b.half_open_calls + length cs ≡ b.config.half_open_max_calls
    → AllEnd excluded cs
    → let b' = run cs b in
      (b'.state ≡ half_open) × (b'.config.half_open_max_calls ≤ b'.half_open_calls)
unfolding run call enter admit check_state_transition finish
excluded_calls [] b h n e = (h, omega arith)
excluded_calls (c ∷ cs) b h n e =
    let b' = (call c.start c.ending c.later b).1 in
    let rest = excluded_calls cs b' (ground arith) (ground arith) (e.1) in
    (ground (arith, rest.0), ground (arith, rest.1))

excluded_from_opened :
    (c : CallAt) (cs : List CallAt) (b : CircuitBreaker)
    → b.state ≡ opened
    → b.last_state_change + b.config.timeout_seconds ≤ c.start
    → length (c ∷ cs) ≡ b.config.half_open_max_calls
    → AllEnd excluded (c ∷ cs)
    → let b' = run (c ∷ cs) b in
      (b'.state ≡ half_open) × (b'.config.half_open_max_calls ≤ b'.half_open_calls)
unfolding run call enter admit check_state_transition transition_to
excluded_from_opened c cs b h late n e =
    let rest = excluded_calls (c ∷ cs) (transition_to half_open c.start b) refl (ground arith) e in
    (ground (arith, rest.0), ground (arith, rest.1))

-- Where the calls that the half-open state lets through all end in an excluded exception, the
-- breaker stays half-open for good: every later call is rejected, whenever it comes.
pub run_excluded :
    (c : CallAt) (cs later : List CallAt) (b : CircuitBreaker)
    → b.state ≡ opened
    → b.last_state_change + b.config.timeout_seconds ≤ c.start
    → length (c ∷ cs) ≡ b.config.half_open_max_calls
    → AllEnd excluded (c ∷ cs)
    → let b' = run (c ∷ cs) b in
      (b'.state ≡ half_open) × (run later b' ≡ b') × (admitted later b' ≡ 0)
run_excluded c cs later b h late n e =
    let stuck = excluded_from_opened c cs b h late n e in
    let (same, none_in) = wedged later (run (c ∷ cs) b) stuck.0 stuck.1 in (stuck.0, same, none_in)
