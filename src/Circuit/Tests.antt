-- ===== src/Circuit/Tests.antt =====
-- shared/resilience/circuit_breaker.py: runs of a breaker.
use rg_agent_engine.Base.{ℕ, ◌≡◌, refl, List, [], ◌∷◌, arith, none}
use rg_agent_engine.Base.Exec.{ok}
use rg_agent_engine.Circuit.Breaker.{
  closed, opened, CircuitBreakerConfig, CircuitBreaker, default_config, new_breaker,
  check_state_transition, admit, enter, Ending, returned, failed, excluded, CallAt, run, admitted,
}
use rg_agent_engine.Circuit.Traffic.{
  Traffic, Reach, here, next, enters, idle, IsCounted, Reach-IsCounted,
}
use rg_agent_engine.Circuit.Recovery.{run_recovers}

-- Open since the time 100.
abbrev tripped : CircuitBreakerConfig → CircuitBreaker
tripped config = record {
  config = config;
  state = opened;
  failure_count = 5;
  success_count = 0;
  last_failure_time = none;
  last_state_change = 100;
  half_open_calls = 0;
  total_calls = 5;
  total_failures = 5;
  total_successes = 0;
}

-- Five successes are asked for, and three calls let through.
abbrev strict_config : CircuitBreakerConfig
strict_config = record {
  failure_threshold = 5;
  success_threshold = 5;
  timeout_seconds = 30;
  half_open_max_calls = 3;
}

abbrev at_time : ℕ → Ending → CallAt
at_time now ending = record { start = now; ending = ending; later = now }

abbrev first_call : Traffic
first_call = record (idle default_config 0) {
  breaker = (enter 1 (idle default_config 0).breaker).1;
  in_flight = 1;
}

first_enters : (enter 1 (idle default_config 0).breaker).0 ≡ ok tt
unfolding enter admit check_state_transition idle new_breaker
first_enters = refl

first_call-Reach : Reach (idle default_config 0) first_call
unfolding idle
first_call-Reach = next here (enters 1 first_enters)

Reach-IsCounted_example : IsCounted default_config first_call
Reach-IsCounted_example =
    Reach-IsCounted default_config (unfold default_config in omega arith)
      (unfold default_config in omega arith) 0 {t = first_call} first_call-Reach

abbrev three_ends : List (Ending × ℕ)
three_ends = (failed, 1) ∷ (returned, 2) ∷ (failed, 3) ∷ []

abbrev two_returns : List CallAt
two_returns = at_time 131 returned ∷ at_time 132 returned ∷ []

run_recovers_example :
    ((run (at_time 130 returned ∷ two_returns) (tripped default_config)).state ≡ closed)
    × (admitted (at_time 130 returned ∷ two_returns) (tripped default_config) ≡ 3)
run_recovers_example =
    run_recovers (at_time 130 returned) two_returns (tripped default_config) refl
      (unfold default_config in omega arith) (unfold default_config in refl)
      (unfold default_config in omega arith) (refl, (refl, (refl, tt)))

abbrev two_excluded : List CallAt
two_excluded = at_time 131 excluded ∷ at_time 132 excluded ∷ []
