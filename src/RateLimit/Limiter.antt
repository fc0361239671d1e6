-- ===== src/RateLimit/Limiter.antt =====
-- app/rate_limiter.py: the tables of limits, and the methods of `RateLimiter`.
use rg_agent_engine.Base.{
  ℕ, ◌+◌, ◌-◌, ◌/◌, Bool, true, false, Option, none, some, List, [], ◌∷◌, ◌++◌, Key, ◌==◌, ltb, leb,
  if◌then◌else◌, ◌&&◌,
}
use rg_agent_engine.Base.Lists.{keep_if, length}
use rg_agent_engine.Base.Dict.{Dict, get_or, put}

-- A subscription tier; any other text is `other_tier`.
pub data Tier : Type 0 where
  free developer plus professional enterprise unlimited other_tier : Tier

-- An operation: one of the three that the source names, or another text.
pub data Operation : Type 0 where
  default_operation execution creation : Operation
  other_operation : Key → Operation

abbrev pub same_operation : Operation → Operation → Bool
same_operation default_operation default_operation = true
same_operation execution execution = true
same_operation creation creation = true
same_operation (other_operation a) (other_operation b) = a == b
same_operation _ _ = false

-- `TIER_LIMITS` and `EXECUTION_LIMITS`, which are the same table, with the default of `get`
unfoldable pub hourly_limit : Tier → ℕ
hourly_limit free = 100
hourly_limit developer = 100
hourly_limit plus = 1000
hourly_limit professional = 1000
hourly_limit enterprise = 10000
hourly_limit unlimited = 999999
hourly_limit other_tier = 100

-- `AGENT_CREATION_LIMITS`
unfoldable pub creation_limit : Tier → ℕ
creation_limit free = 3
creation_limit developer = 3
creation_limit plus = 20
creation_limit professional = 20
creation_limit enterprise = 100
creation_limit unlimited = 999999
creation_limit other_tier = 3

unfoldable pub limit_for : Tier → Operation → ℕ
unfolding hourly_limit creation_limit
limit_for tier creation = creation_limit tier
limit_for tier _ = hourly_limit tier

-- The window in which the requests are counted.
abbrev pub window_for : Operation → ℕ → ℕ
window_for creation window = 86400
window_for _ window = window

pub record Request : Type 0 where
  pub timestamp : ℕ
  pub operation : Operation

abbrev pub RateLimiter : Type 0
RateLimiter = Dict (List Request)

abbrev pub is_recent : ℕ → ℕ → Request → Bool
is_recent now window r = ltb now (r.timestamp + window)

abbrev pub counts_for : Operation → Request → Bool
counts_for default_operation r = true
counts_for op r = same_operation r.operation op

-- The requests of the window that count for an operation.
unfoldable pub count : ℕ → ℕ → Operation → List Request → ℕ
count now window op rs = length (keep_if (λ r. is_recent now window r && counts_for op r) rs)

-- The message of a refusal: the count, the limit, and the minutes to wait.
pub record Refusal : Type 0 where
  pub used : ℕ
  pub limit : ℕ
  pub minutes : ℕ

-- The requests of the user within the window, which are all that is kept.
unfoldable pub clean : Key → ℕ → ℕ → RateLimiter → List Request
clean user now window s = keep_if (is_recent now window) (get_or user [] s)

unfoldable pub check_rate_limit :
    Key → Tier → Operation → ℕ → ℕ → RateLimiter → (Bool × Option Refusal) × RateLimiter
unfolding clean count limit_for
check_rate_limit user tier op window now s =
    let rs = clean user now window s in
    let used = count now (window_for op window) op rs in
    if leb (limit_for tier op) used
    then (
      (
        false,
        some (record {
          used = used;
          limit = limit_for tier op;
          minutes = window_for op window / 60;
        }),
      ),
      put user rs s,
    )
    else ((true, none), put user (rs ++ record { timestamp = now; operation = op } ∷ []) s)

-- `min(timestamps, default=now)`
unfoldable pub oldest : ℕ → List Request → ℕ
oldest now [] = now
oldest now (r ∷ []) = r.timestamp
oldest now (r ∷ q ∷ rs) =
    let rest = oldest now (q ∷ rs) in if leb r.timestamp rest then r.timestamp else rest

pub record Usage : Type 0 where
  pub used : ℕ
  pub limit : ℕ
  pub remaining : ℕ
  pub reset_in_seconds : ℕ

-- `max(0, ...)` is the subtraction that stops at 0; the window is added first, since the oldest
-- request may be of the future.
unfoldable pub get_usage : Key → Tier → Operation → ℕ → ℕ → RateLimiter → Usage
unfolding oldest limit_for
get_usage user tier op window now s =
    let w = window_for op window in
    let rs = keep_if (λ r. is_recent now w r && counts_for op r) (get_or user [] s) in
    record {
      used = length rs;
      limit = limit_for tier op;
      remaining = limit_for tier op - length rs;
      reset_in_seconds = w + oldest now rs - now;
    }

-- `cleanup` drops what is older than a day, and the users of whom nothing is left.
abbrev is_nil : List Request → Bool
is_nil [] = true
is_nil (r ∷ rs) = false

unfoldable pub cleanup : ℕ → RateLimiter → RateLimiter
cleanup now [] = []
cleanup now (e ∷ s) =
    let rs = keep_if (is_recent now 86400) e.1 in
    let rest = cleanup now s in if is_nil rs then rest else (e.0, rs) ∷ rest
