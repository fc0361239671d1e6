-- ===== src/RateLimit/Creation.antt =====
-- app/rate_limiter.py: the limit on the creation of agents.
use rg_agent_engine.Base.{ℕ, ◌+◌, ◌≤◌, ◌<◌, ◌≡◌, refl, true, List, [], ◌∷◌, Key, arith}
use rg_agent_engine.Base.Lists.{keep_if, All}
use rg_agent_engine.Base.Dict.{get_or}
use rg_agent_engine.RateLimit.Limiter.{
  Tier, creation, Request, RateLimiter, is_recent, count, clean, creation_limit, limit_for,
  check_rate_limit,
}

keep_if-old :
    (now window : ℕ) (rs : List Request)
    → All (λ (r : Request). r.timestamp + window ≤ now) rs
    → keep_if (is_recent now window) rs ≡ []
keep_if-old now window [] h = refl
keep_if-old now window (r ∷ rs) (old, rest) = ground (arith, keep_if-old now window rs rest)

some_creation : (tier : Tier) → 0 < creation_limit tier
unfolding creation_limit
some_creation tier = ground arith

-- The creations of a user are counted over a day, but a check has first dropped all that is older
-- than its window, an hour by default: where all requests of the user are that old, a creation is
-- allowed, in every tier, however many creations the day has seen.
pub creation_forgotten :
    (user : Key) (tier : Tier) (window now : ℕ) (s : RateLimiter)
    → All (λ (r : Request). r.timestamp + window ≤ now) (get_or user [] s)
    → (check_rate_limit user tier creation window now s).0.0 ≡ true
unfolding check_rate_limit clean count limit_for
creation_forgotten user tier window now s old =
    ground (arith, keep_if-old now window (get_or user [] s) old, some_creation tier)
