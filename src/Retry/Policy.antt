-- ===== src/Retry/Policy.antt =====
-- shared/resilience/retry.py: `ExponentialBackoff.get_delay` and `RetryPolicy.execute`. Delays are
-- whole numbers of a smallest unit; the jitter, which is random, is a function of the attempt and
-- the delay.
use Prim.Native.Nat.{◌^◌}
use rg_agent_engine.Base.{
  ℕ, zero, suc, ◌+◌, ◌*◌, Bool, true, false, not, ◌&&◌, List, [], ◌∷◌, ltb, if◌then◌else◌,
}
use rg_agent_engine.Base.Exec.{Result, ok, err}

pub record RetryConfig : Type 0 where
  pub max_retries : ℕ
  pub base_delay_seconds : ℕ
  pub max_delay_seconds : ℕ
  pub exponential_base : ℕ
  pub jitter : Bool

pub record RetryPolicy : Type 0 where
  pub total_attempts : ℕ
  pub total_retries : ℕ
  pub total_successes : ℕ
  pub total_failures : ℕ

unfoldable pub new_policy : RetryPolicy
new_policy = record {
  total_attempts = 0;
  total_retries = 0;
  total_successes = 0;
  total_failures = 0;
}

abbrev pub min_delay : ℕ → ℕ → ℕ
min_delay a b = if ltb b a then b else a

unfoldable pub get_delay : (ℕ → ℕ → ℕ) → RetryConfig → ℕ → ℕ
get_delay jittered config attempt =
    let delay =
      min_delay (config.base_delay_seconds * config.exponential_base ^ attempt)
        config.max_delay_seconds in
    if config.jitter then jittered attempt delay else delay

abbrev pub is_ok : {A E : Type 0} → Result E A → Bool
is_ok (ok a) = true
is_ok (err e) = false

-- One attempt is counted; an end of the whole run is a success or a failure.
abbrev pub tried : RetryPolicy → RetryPolicy
tried p = record p { total_attempts = p.total_attempts + 1 }

abbrev pub retried : RetryPolicy → RetryPolicy
retried p = record p { total_retries = p.total_retries + 1 }

abbrev pub ended : Bool → RetryPolicy → RetryPolicy
ended true p = record p { total_successes = p.total_successes + 1 }
ended false p = record p { total_failures = p.total_failures + 1 }

-- What a run gives back: the last result or exception, the delays slept, and the counters.
abbrev pub Run : Type 0 → Type 0 → Type 0
Run A E = (Result E A × List ℕ) × RetryPolicy

module _ {A E : Type 0} (again : Result E A → Bool) (delay : ℕ → ℕ) (func : ℕ → Result E A) where
  -- The loop of both methods from one attempt on, with so many retries left.
  unfoldable pub attempt_from : ℕ → ℕ → RetryPolicy → Run A E
  attempt_from zero attempt p =
      let r = func attempt in ((r, []), ended (is_ok r && not (again r)) (tried p))
  attempt_from (suc left) attempt p =
      let r = func attempt in
      let ((last, slept), p') = attempt_from left (attempt + 1) (retried (tried p)) in
      if again r then ((last, delay attempt ∷ slept), p') else ((r, []), ended (is_ok r) (tried p))

abbrev pub fails_again : {A E : Type 0} → (E → Bool) → Result E A → Bool
fails_again retryable (ok a) = false
fails_again retryable (err e) = retryable e

unfoldable pub execute :
    {A E : Type 0}
    → (E → Bool)
    → (ℕ → ℕ → ℕ)
    → RetryConfig
    → (ℕ → Result E A)
    → RetryPolicy
    → Run A E
unfolding attempt_from get_delay
execute retryable jittered config func p =
    attempt_from (fails_again retryable) (get_delay jittered config) func config.max_retries 0 p

-- A result whose status is one of the retryable codes counts as a failure to be tried again.
abbrev pub status_again : {A E : Type 0} → (E → Bool) → (A → Bool) → Result E A → Bool
status_again retryable retryable_status (ok a) = retryable_status a
status_again retryable retryable_status (err e) = retryable e

unfoldable pub execute_with_status_check :
    {A E : Type 0}
    → (E → Bool)
    → (A → Bool)
    → (ℕ → ℕ → ℕ)
    → RetryConfig
    → (ℕ → Result E A)
    → RetryPolicy
    → Run A E
unfolding attempt_from get_delay
execute_with_status_check retryable retryable_status jittered config func p =
    attempt_from (status_again retryable retryable_status) (get_delay jittered config) func
      config.max_retries 0 p
