-- ===== src/Circuit/Breaker.antt =====
-- shared/resilience/circuit_breaker.py: the state of a breaker, its sections, and the registry.
-- Times are in a smallest unit; `elapsed >= timeout` is written `last + timeout <= now`.
use rg_agent_engine.Base.{
  ℕ, ◌+◌, ◌-◌, Bool, Option, none, some, List, [], ◌∷◌, Key, leb, if◌then◌else◌,
}
use rg_agent_engine.Base.Dict.{Dict, get, put}
use rg_agent_engine.Base.Exec.{Result, ok, err}

-- `opened` is OPEN.
pub data CircuitState : Type 0 where
  closed opened half_open : CircuitState

pub record CircuitBreakerConfig : Type 0 where
  pub failure_threshold : ℕ
  pub success_threshold : ℕ
  pub timeout_seconds : ℕ
  pub half_open_max_calls : ℕ

unfoldable pub default_config : CircuitBreakerConfig
default_config = record {
  failure_threshold = 5;
  success_threshold = 3;
  timeout_seconds = 30;
  half_open_max_calls = 3;
}

pub record CircuitBreaker : Type 0 where
  pub config : CircuitBreakerConfig
  pub state : CircuitState
  pub failure_count : ℕ
  pub success_count : ℕ
  pub last_failure_time : Option ℕ
  pub last_state_change : ℕ
  pub half_open_calls : ℕ
  pub total_calls : ℕ
  pub total_failures : ℕ
  pub total_successes : ℕ

unfoldable pub new_breaker : CircuitBreakerConfig → ℕ → CircuitBreaker
new_breaker config now = record {
  config = config;
  state = closed;
  failure_count = 0;
  success_count = 0;
  last_failure_time = none;
  last_state_change = now;
  half_open_calls = 0;
  total_calls = 0;
  total_failures = 0;
  total_successes = 0;
}

unfoldable pub transition_to : CircuitState → ℕ → CircuitBreaker → CircuitBreaker
transition_to closed now b = record b {
  state = closed;
  last_state_change = now;
  failure_count = 0;
  success_count = 0;
}
transition_to opened now b = record b { state = opened; last_state_change = now }
transition_to half_open now b = record b {
  state = half_open;
  last_state_change = now;
  half_open_calls = 0;
  success_count = 0;
}

abbrev pub timed_out : ℕ → CircuitBreaker → Bool
timed_out now b = leb (b.last_state_change + b.config.timeout_seconds) now

unfoldable pub check_state_transition : ℕ → CircuitBreaker → CircuitBreaker
unfolding transition_to
check_state_transition now b = elim b.state [
  | opened ↦ if timed_out now b then transition_to half_open now b else b
  | _ ↦ b
]

unfoldable pub record_success : ℕ → CircuitBreaker → CircuitBreaker
unfolding transition_to
record_success now b =
    let b' = record b {
      total_successes = b.total_successes + 1;
      success_count = b.success_count + 1;
    } in
    elim b.state [
      | half_open ↦
          if leb b.config.success_threshold (b.success_count + 1)
          then transition_to closed now b'
          else b'
      | _ ↦ b'
    ]

unfoldable pub record_failure : ℕ → CircuitBreaker → CircuitBreaker
unfolding transition_to
record_failure now b =
    let b' = record b {
      total_failures = b.total_failures + 1;
      failure_count = b.failure_count + 1;
      last_failure_time = some now;
    } in
    elim b.state [
      | closed ↦
          if leb b.config.failure_threshold (b.failure_count + 1)
          then transition_to opened now b'
          else b'
      | half_open ↦ transition_to opened now b'
      | opened ↦ b'
    ]

-- `CircuitOpenError`, with `retry_after` or the one second of the half-open state
pub data CircuitOpenError : Type 0 where
  retry_after : ℕ → CircuitOpenError
  one_second : CircuitOpenError

-- The first section of `call`, behind the check of the timeout; `max(0, last + timeout - now)` is
-- the subtraction that stops at 0.
unfoldable pub admit : ℕ → CircuitBreaker → Result CircuitOpenError (Unit {0}) × CircuitBreaker
admit now b = elim b.state [
  | opened ↦ (err (retry_after (b.last_state_change + b.config.timeout_seconds - now)), b)
  | half_open ↦
      if leb b.config.half_open_max_calls b.half_open_calls then (err one_second, b) else (
        ok tt,
        record b { half_open_calls = b.half_open_calls + 1; total_calls = b.total_calls + 1 },
      )
  | closed ↦ (ok tt, record b { total_calls = b.total_calls + 1 })
]

unfoldable pub enter : ℕ → CircuitBreaker → Result CircuitOpenError (Unit {0}) × CircuitBreaker
unfolding admit check_state_transition
enter now b = admit now (check_state_transition now b)

-- How the guarded function ended: with a result, with an exception, or with one that is not
-- recorded: an excluded one, or a cancellation.
pub data Ending : Type 0 where
  returned failed excluded : Ending

-- The second section of `call`
unfoldable pub finish : Ending → ℕ → CircuitBreaker → CircuitBreaker
unfolding record_success record_failure
finish returned now b = record_success now b
finish failed now b = record_failure now b
finish excluded now b = b

-- A whole call with no other in between: it is admitted at one time and ends at another.
unfoldable pub call :
    ℕ → Ending → ℕ → CircuitBreaker → Result CircuitOpenError Ending × CircuitBreaker
unfolding enter finish
call start ending later b =
    let (r, b') = enter start b in
    elim r [ err e ↦ (err e, b') | ok u ↦ (ok ending, finish ending later b') ]

unfoldable pub reset : ℕ → CircuitBreaker → CircuitBreaker
unfolding transition_to
reset now b = record (transition_to closed now b) { failure_count = 0; success_count = 0 }

-- `CircuitBreakerRegistry`
unfoldable pub get_or_create :
    Key
    → Option CircuitBreakerConfig
    → ℕ
    → Dict CircuitBreaker
    → CircuitBreaker × Dict CircuitBreaker
unfolding new_breaker
get_or_create name config now d = elim (get name d) [
  | some b ↦ (b, d)
  | none ↦
      let b = new_breaker (elim config [ none ↦ default_config | some c ↦ c ]) now in
      (b, put name b d)
]

unfoldable pub reset_all : ℕ → Dict CircuitBreaker → Dict CircuitBreaker
unfolding reset
reset_all now [] = []
reset_all now (e ∷ d) = (e.0, reset now e.1) ∷ reset_all now d

-- Calls one after the other: when each starts, how it ends if it is admitted, and when.
pub record CallAt : Type 0 where
  pub start : ℕ
  pub ending : Ending
  pub later : ℕ

unfoldable pub run : List CallAt → CircuitBreaker → CircuitBreaker
unfolding call
run [] b = b
run (c ∷ cs) b = run cs (call c.start c.ending c.later b).1

abbrev count_ok : Result CircuitOpenError Ending → ℕ
count_ok (ok e) = 1
count_ok (err e) = 0

-- How many of them the breaker lets through.
unfoldable pub admitted : List CallAt → CircuitBreaker → ℕ
unfolding call
admitted [] b = 0
admitted (c ∷ cs) b = let (r, b') = call c.start c.ending c.later b in count_ok r + admitted cs b'
