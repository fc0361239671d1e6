-- ===== src/RateLimit/Tests.antt =====
-- app/rate_limiter.py: runs of the limiter.
use rg_agent_engine.Base.{ℕ, ◌+◌, ◌≤◌, ◌≡◌, refl, false, none, List, [], ◌∷◌, arith}
use rg_agent_engine.Base.Lists.{All}
use rg_agent_engine.Base.Dict.{get, get_or, put}
use rg_agent_engine.RateLimit.Limiter.{
  free, Operation, execution, creation, default_operation, Request, RateLimiter, count, clean,
  creation_limit, limit_for, check_rate_limit, cleanup,
}
use rg_agent_engine.RateLimit.Window.{
  CheckAt, allowed_requests, in_window, count_if, allowed_requests_bound,
}

abbrev at_time : ℕ → Operation → CheckAt
at_time now op = record { operation = op; now = now }

abbrev created_at : ℕ → Request
created_at now = record { timestamp = now; operation = creation }

-- Three creations of the user 7 by the time 10.
abbrev busy : RateLimiter
busy = (7, created_at 0 ∷ created_at 5 ∷ created_at 10 ∷ []) ∷ []

fourth_refused : (check_rate_limit 7 free creation 3600 20 busy).0.0 ≡ false
unfolding check_rate_limit clean count limit_for creation_limit get put
fourth_refused = refl

cleaned_up : cleanup 86405 busy ≡ (7, created_at 10 ∷ []) ∷ []
unfolding cleanup
cleaned_up = refl

abbrev some_checks : List CheckAt
some_checks = at_time 1 execution ∷ at_time 1 default_operation ∷ at_time 9 execution ∷ []

abbrev fresh : RateLimiter
fresh = []

nothing_known : get 7 fresh ≡ none
unfolding get
nothing_known = refl

three_old : All (λ (r : Request). r.timestamp + 3600 ≤ 3610) (get_or 7 [] busy)
unfolding get
three_old = (omega arith, (omega arith, (omega arith, tt)))

allowed_requests_bound_example :
    count_if (in_window 0 3600) (allowed_requests 7 free 3600 some_checks fresh)
    ≤ limit_for free execution
allowed_requests_bound_example =
    allowed_requests_bound 7 free 3600 some_checks fresh (omega arith)
      (omega arith, (omega arith, (omega arith, tt))) nothing_known 0
