-- ===== src/Retry/Tests.antt =====
-- shared/resilience/retry.py: a run that succeeds with its third attempt.
use rg_agent_engine.Base.{ℕ, zero, suc, ◌≡◌, refl, Bool, true, false, [], ◌∷◌}
use rg_agent_engine.Base.Exec.{Result, ok, err}
use rg_agent_engine.Retry.Policy.{
  RetryConfig, new_policy, get_delay, attempt_from, fails_again, execute,
}
use rg_agent_engine.Retry.Attempts.{IsRun, execute-IsRun}

abbrev config : RetryConfig
config = record {
  max_retries = 3;
  base_delay_seconds = 10;
  max_delay_seconds = 15;
  exponential_base = 2;
  jitter = false;
}

abbrev flaky : ℕ → Result ℕ ℕ
flaky zero = err 503
flaky (suc zero) = err 503
flaky (suc (suc n)) = ok 7

-- Every exception can be retried, and there is no jitter.
abbrev any : ℕ → Bool
any e = true

abbrev steady : ℕ → ℕ → ℕ
steady attempt delay = delay

third_succeeds : (execute any steady config flaky new_policy).0 ≡ (ok 7, 10 ∷ 15 ∷ [])
unfolding execute attempt_from get_delay new_policy
third_succeeds = refl

execute-IsRun_example :
    (k : ℕ) × IsRun
      (fails_again any)
      flaky
      3
      0
      new_policy
      (execute any steady config flaky new_policy)
      k
execute-IsRun_example = execute-IsRun any steady config flaky new_policy
