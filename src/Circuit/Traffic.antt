-- ===== src/Circuit/Traffic.antt =====
-- shared/resilience/circuit_breaker.py: overlapping calls of one breaker, section by section.
use rg_agent_engine.Base.{ℕ, ◌+◌, ◌≤◌, ◌<◌, ◌≡◌, refl, arith}
use rg_agent_engine.Base.Exec.{ok, err}
use rg_agent_engine.Circuit.Breaker.{
  closed, half_open, CircuitBreakerConfig, CircuitBreaker, CircuitOpenError, new_breaker,
  transition_to, check_state_transition, record_success, record_failure, admit, enter, Ending,
  excluded, finish, reset,
}

-- A breaker, the calls that it let through and that have not ended, and those that ended with an
-- excluded exception.
pub record Traffic : Type 0 where
  pub breaker : CircuitBreaker
  pub in_flight : ℕ
  pub left_out : ℕ

-- What a call's end adds to the excluded ones.
abbrev pub excludes : Ending → ℕ
excludes excluded = 1
excludes _ = 0

-- One section.
pub data Step (t : Traffic) : Traffic → Type 0 where
  enters :
      (now : ℕ)
      → (enter now t.breaker).0 ≡ ok tt
      → Step t (record t { breaker = (enter now t.breaker).1; in_flight = t.in_flight + 1 })
  is_rejected :
      (now : ℕ) (e : CircuitOpenError)
      → (enter now t.breaker).0 ≡ err e
      → Step t (record t { breaker = (enter now t.breaker).1 })
  ends :
      (ending : Ending) (now n : ℕ)
      → t.in_flight ≡ n + 1
      → Step t (record {
        breaker = finish ending now t.breaker;
        in_flight = n;
        left_out = t.left_out + excludes ending;
      })
  is_reset : (now : ℕ) → Step t (record t { breaker = reset now t.breaker })

pub data Reach (t : Traffic) : Traffic → Type 0 where
  here : Reach t t
  next : {u v : Traffic} → Reach t u → Step u v → Reach t v

unfoldable pub idle : CircuitBreakerConfig → ℕ → Traffic
idle config now = record { breaker = new_breaker config now; in_flight = 0; left_out = 0 }

-- The counters of a breaker fit its state, its configuration and the traffic.
pub record IsCounted (config : CircuitBreakerConfig) (t : Traffic) : Type 0 where
  pub same_config : t.breaker.config ≡ config
  pub calls :
      t.breaker.total_calls
      ≡ t.breaker.total_successes + t.breaker.total_failures + t.left_out + t.in_flight
  pub closed_failures :
      t.breaker.state ≡ closed → t.breaker.failure_count < config.failure_threshold
  pub half_open_successes :
      t.breaker.state ≡ half_open → t.breaker.success_count < config.success_threshold
  pub half_open_admitted :
      t.breaker.state ≡ half_open → t.breaker.half_open_calls ≤ config.half_open_max_calls

module _ (config : CircuitBreakerConfig) (some_failure : 0 < config.failure_threshold)
    (some_success : 0 < config.success_threshold) where
  Step-IsCounted : {t u : Traffic} → Step t u → IsCounted config t → IsCounted config u
  unfolding enter admit check_state_transition transition_to finish record_success record_failure
      reset
  Step-IsCounted {t} (enters now e) h = record {
    same_config = ground (arith, h.same_config);
    calls = ground (arith, h.calls);
    closed_failures = ground (arith, h.closed_failures, h.same_config);
    half_open_successes = ground (arith, h.half_open_successes, h.same_config);
    half_open_admitted = ground (arith, h.half_open_admitted, h.same_config);
  }
  Step-IsCounted {t} (is_rejected now error e) h = record {
    same_config = ground (arith, h.same_config);
    calls = ground (arith, h.calls);
    closed_failures = ground (arith, h.closed_failures, h.same_config);
    half_open_successes = ground (arith, h.half_open_successes, h.same_config);
    half_open_admitted = ground (arith, h.half_open_admitted, h.same_config);
  }
  Step-IsCounted {t} (ends ending now n e) h = record {
    same_config = ground (arith, h.same_config);
    calls = ground (arith, h.calls);
    closed_failures = ground (arith, h.closed_failures, h.same_config);
    half_open_successes = ground (arith, h.half_open_successes, h.same_config);
    half_open_admitted = ground (arith, h.half_open_admitted, h.same_config);
  }
  Step-IsCounted {t} (is_reset now) h = record {
    same_config = h.same_config;
    calls = h.calls;
    closed_failures = ground arith;
    half_open_successes = ground arith;
    half_open_admitted = ground arith;
  }

  Reach-preserves : {t u : Traffic} → Reach t u → IsCounted config t → IsCounted config u
  Reach-preserves here h = h
  Reach-preserves (next r step) h = Step-IsCounted step (Reach-preserves r h)

  -- However calls overlap, the breaker counts each once: the calls let through are the successes,
  -- the failures, those that ended in an excluded exception and those that still run. While closed
  -- it has seen fewer failures than the threshold; while half-open, fewer successes than the
  -- threshold, and has let through no more calls than the maximum. Both thresholds are positive.
  pub Reach-IsCounted : (start : ℕ) {t : Traffic} → Reach (idle config start) t → IsCounted config t
  unfolding idle new_breaker
  Reach-IsCounted start r = Reach-preserves r (record {
    same_config = refl;
    calls = refl;
    closed_failures = λ e. some_failure;
    half_open_successes = λ e. some_success;
    half_open_admitted = ground arith;
  })
