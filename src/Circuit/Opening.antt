-- ===== src/Circuit/Opening.antt =====
-- shared/resilience/circuit_breaker.py: when a breaker opens, and the time until its timeout.
use rg_agent_engine.Base.{ℕ, ◌+◌, ◌<◌, ◌≡◌, refl, List, [], ◌∷◌, leb, if◌then◌else◌, arith}
use rg_agent_engine.Base.Lists.{All}
use rg_agent_engine.Circuit.Breaker.{
  closed, opened, CircuitBreakerConfig, CircuitBreaker, new_breaker, transition_to,
  check_state_transition, record_success, record_failure, admit, enter, Ending, failed, finish,
  call, CallAt, run, admitted,
}

-- Ends of calls, in the order in which they come, each with its time.
unfoldable pub finish_all : List (Ending × ℕ) → CircuitBreaker → CircuitBreaker
finish_all [] b = b
finish_all (e ∷ es) b = finish_all es (finish e.0 e.1 b)

abbrev is_failure : Ending → ℕ
is_failure failed = 1
is_failure _ = 0

abbrev pub failures : List (Ending × ℕ) → ℕ
failures [] = 0
failures (e ∷ es) = is_failure e.0 + failures es

finish_all_opened :
    (es : List (Ending × ℕ)) (b : CircuitBreaker)
    → b.state ≡ opened
    → (finish_all es b).state ≡ opened
unfolding finish_all finish record_success record_failure transition_to
finish_all_opened [] b h = h
finish_all_opened (e ∷ es) b h = finish_all_opened es (finish e.0 e.1 b) (ground arith)

finish_all_closed :
    (es : List (Ending × ℕ)) (b : CircuitBreaker)
    → b.state ≡ closed
    → b.failure_count < b.config.failure_threshold
    → (finish_all es b).state
      ≡ (if leb b.config.failure_threshold (b.failure_count + failures es) then opened else closed)
unfolding finish_all finish record_success record_failure transition_to
finish_all_closed [] b h few = ground arith
finish_all_closed (e ∷ es) b h few =
    let b' = finish e.0 e.1 b in ground (arith, finish_all_closed es b', finish_all_opened es b')

-- A new breaker opens with the failure that reaches the threshold and not before: after any ends of
-- admitted calls it is open if the failures among them are at least the threshold, and else
-- closed. The successes in between do not count against the failures. The threshold is positive.
pub finish_all_lem :
    (config : CircuitBreakerConfig) (start : ℕ) (es : List (Ending × ℕ))
    → 0 < config.failure_threshold
    → (finish_all es (new_breaker config start)).state
      ≡ (if leb config.failure_threshold (failures es) then opened else closed)
unfolding new_breaker
finish_all_lem config start es h =
    ground (arith, finish_all_closed es (new_breaker config start) refl h)

-- Calls that start before the timeout of an open breaker are all rejected, and leave it as it is.
pub run_before_timeout :
    (cs : List CallAt) (b : CircuitBreaker)
    → b.state ≡ opened
    → All (λ (c : CallAt). c.start < b.last_state_change + b.config.timeout_seconds) cs
    → (run cs b ≡ b) × (admitted cs b ≡ 0)
unfolding run admitted call enter admit check_state_transition
run_before_timeout [] b h early = (refl, refl)
run_before_timeout (c ∷ cs) b h (early, rest) =
    let (same, none_in) = run_before_timeout cs b h rest in
    (ground (arith, same), ground (arith, none_in))
