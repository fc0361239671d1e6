-- ===== src/Retry/Attempts.antt =====
-- shared/resilience/retry.py: the attempts of a run.
use rg_agent_engine.Base.{
  ℕ, zero, suc, ◌+◌, ◌≤◌, ◌<◌, ◌≡◌, ◌⊎◌, inl, inr, refl, Bool, true, false, not, ◌&&◌, [], ◌∷◌,
  arith, Bool-cases,
}
use rg_agent_engine.Base.Lists.{length}
use rg_agent_engine.Base.Exec.{Result}
use rg_agent_engine.Retry.Policy.{
  RetryConfig, RetryPolicy, get_delay, attempt_from, is_ok, tried, retried, ended, Run, fails_again,
  execute,
}

-- A run that made `k` retries from an attempt on: those before the last are to be tried again, the
-- last is not or none is left, and the counters say so.
pub record IsRun {A E : Type 0} (again : Result E A → Bool) (func : ℕ → Result E A)
    (left attempt : ℕ) (p : RetryPolicy) (r : Run A E) (k : ℕ) : Type 0 where
  pub bounded : k ≤ left
  pub before : (j : ℕ) → j < k → again (func (attempt + j)) ≡ true
  pub result : r.0.0 ≡ func (attempt + k)
  pub stops : (again (func (attempt + k)) ≡ false) ⊎ (k ≡ left)
  pub slept : length r.0.1 ≡ k
  pub attempts : r.1.total_attempts ≡ p.total_attempts + k + 1
  pub retries : r.1.total_retries ≡ p.total_retries + k
  pub ends : r.1.total_successes + r.1.total_failures ≡ p.total_successes + p.total_failures + 1

module _ {A E : Type 0} (again : Result E A → Bool) (delay : ℕ → ℕ) (func : ℕ → Result E A) where
  -- The counters of a run that ends with its first attempt.
  ended-counts :
      (b : Bool) (p : RetryPolicy)
      → let p' = ended b (tried p) in
        (p'.total_attempts ≡ p.total_attempts + 0 + 1)
        × (p'.total_retries ≡ p.total_retries + 0)
        × (p'.total_successes + p'.total_failures ≡ p.total_successes + p.total_failures + 1)
  ended-counts true p = (omega arith, omega arith, omega arith)
  ended-counts false p = (omega arith, omega arith, omega arith)

  ends_now :
      (left attempt : ℕ) (p : RetryPolicy) (b : Bool)
      → (again (func attempt) ≡ false) ⊎ (0 ≡ left)
      → IsRun again func left attempt p ((func attempt, []), ended b (tried p)) 0
  ends_now left attempt p b stop =
      let here : attempt + 0 ≡ attempt = omega arith in
      let (attempts, retries, ends) = ended-counts b p in
      record {
        bounded = omega arith;
        before = λ j h. absurd (omega (arith, h));
        result = rw here refl;
        stops = rw here stop;
        slept = refl;
        attempts = attempts;
        retries = retries;
        ends = ends;
      }

  goes_on :
      (left attempt : ℕ) (p : RetryPolicy) (r : Run A E) (k : ℕ)
      → again (func attempt) ≡ true
      → IsRun again func left (attempt + 1) (retried (tried p)) r k
      → IsRun again func (suc left) attempt p ((r.0.0, delay attempt ∷ r.0.1), r.1) (suc k)
  goes_on left attempt p r k yes' h =
      let next : attempt + suc k ≡ attempt + 1 + k = omega arith in
      record {
        bounded = omega (arith, h.bounded);
        before = λ j lt. before_from j lt;
        result = rw next h.result;
        stops = rw next (elim h.stops [ inl no' ↦ inl no' | inr all ↦ inr (omega (arith, all)) ]);
        slept = omega (arith, h.slept);
        attempts = omega (arith, h.attempts);
        retries = omega (arith, h.retries);
        ends = h.ends;
      }
    where
      before_from : (j : ℕ) → j < suc k → again (func (attempt + j)) ≡ true
      before_from zero lt = let here : attempt + 0 ≡ attempt = omega arith in rw here yes'
      before_from (suc j) lt =
          let next : attempt + suc j ≡ attempt + 1 + j = omega arith in
          rw next (h.before j (omega (arith, lt)))

  attempt_from-IsRun :
      (left attempt : ℕ) (p : RetryPolicy)
      → (k : ℕ) × IsRun again func left attempt p (attempt_from again delay func left attempt p) k
  unfolding attempt_from
  attempt_from-IsRun zero attempt p =
      (0, ends_now 0 attempt p (is_ok (func attempt) && not (again (func attempt))) (inr refl))
  attempt_from-IsRun (suc left) attempt p =
      let (k, h) = attempt_from-IsRun left (attempt + 1) (retried (tried p)) in
      elim (Bool-cases (again (func attempt))) [
        | inl yes' ↦ (
          suc k,
          rw yes' (
              goes_on left attempt p
                (attempt_from again delay func left (attempt + 1) (retried (tried p))) k yes' h),
        )
        | inr no' ↦ (0, rw no' (ends_now (suc left) attempt p (is_ok (func attempt)) (inl no')))
      ]

-- A run of the retry policy returns or raises: for some number of retries, at most the maximum, the
-- attempts before raise retryable exceptions, and what the attempt behind them gives is given
-- back; that attempt returns or raises what is not retryable, or no retry is left. Each retry has
-- slept once, and the counters tell the attempts, the retries and the one end of the run.
pub execute-IsRun :
    {A E : Type 0} (retryable : E → Bool) (jittered : ℕ → ℕ → ℕ) (config : RetryConfig)
    (func : ℕ → Result E A) (p : RetryPolicy)
    → (k : ℕ) × IsRun
        (fails_again retryable)
        func
        config.max_retries
        0
        p
        (execute retryable jittered config func p)
        k
unfolding execute
execute-IsRun retryable jittered config func p =
    attempt_from-IsRun (fails_again retryable) (get_delay jittered config) func config.max_retries 0
      p
