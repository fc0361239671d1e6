-- ===== src/RateLimit/Window.antt =====
-- app/rate_limiter.py: the sliding window.
use mathlib.Core.List.{append-nil, append_assoc}
use rg_agent_engine.Base.{
  ℕ, ◌+◌, ◌≤◌, ◌<◌, ◌≡◌, refl, Bool, true, false, List, [], ◌∷◌, ◌++◌, Key, ◌&&◌, ltb, leb,
  if◌then◌else◌, arith, Bool-cases, inl, inr, none,
}
use rg_agent_engine.Base.Lists.{keep_if, length}
use rg_agent_engine.Base.Dict.{get, get_or, get-put_self}
use rg_agent_engine.RateLimit.Limiter.{
  Tier, Operation, execution, default_operation, creation, other_operation, Request, RateLimiter,
  is_recent, counts_for, same_operation, count, clean, limit_for, check_rate_limit,
}

-- How many items satisfy a test.
abbrev pub count_if {ℓ} : {A : Type ℓ} → (A → Bool) → List A → ℕ
count_if p xs = length (keep_if p xs)

count_if-keep_if {ℓ} :
    {A : Type ℓ} (p q : A → Bool) (xs : List A)
    → ((x : A) → p x ≡ true → q x ≡ true)
    → count_if p (keep_if q xs) ≡ count_if p xs
count_if-keep_if p q [] h = refl
count_if-keep_if p q (x ∷ xs) h = ground (arith, count_if-keep_if p q xs h, h x)

count_if_mono {ℓ} :
    {A : Type ℓ} (p q : A → Bool) (xs : List A)
    → ((x : A) → p x ≡ true → q x ≡ true)
    → count_if p xs ≤ count_if q xs
count_if_mono p q [] h = omega arith
count_if_mono p q (x ∷ xs) h = ground (arith, count_if_mono p q xs h, h x)

count_if-append {ℓ} :
    {A : Type ℓ} (p : A → Bool) (xs ys : List A)
    → count_if p (xs ++ ys) ≡ count_if p xs + count_if p ys
count_if-append p [] ys = omega arith
count_if-append p (x ∷ xs) ys = ground (arith, count_if-append p xs ys)

keep_if-keep_if {ℓ} :
    {A : Type ℓ} (p q : A → Bool) (xs : List A)
    → ((x : A) → p x ≡ true → q x ≡ true)
    → keep_if p (keep_if q xs) ≡ keep_if p xs
keep_if-keep_if p q [] h = refl
keep_if-keep_if p q (x ∷ xs) h = ground (arith, keep_if-keep_if p q xs h, h x)

keep_if-append {ℓ} :
    {A : Type ℓ} (p : A → Bool) (xs ys : List A)
    → keep_if p (xs ++ ys) ≡ keep_if p xs ++ keep_if p ys
keep_if-append p [] ys = refl
keep_if-append p (x ∷ xs) ys = ground (arith, keep_if-append p xs ys)

-- A check of one user, with its operation and its time.
pub record CheckAt : Type 0 where
  pub operation : Operation
  pub now : ℕ

-- The checks do not go back in time.
abbrev pub InOrder : ℕ → List CheckAt → Type 0
InOrder t [] = Unit
InOrder t (c ∷ cs) = (t ≤ c.now) × InOrder c.now cs

abbrev request_of : CheckAt → Request
request_of c = record { timestamp = c.now; operation = c.operation }

module _ (user : Key) (tier : Tier) (w : ℕ) where
  unfoldable pub run : List CheckAt → RateLimiter → RateLimiter
  run [] s = s
  run (c ∷ cs) s = run cs (check_rate_limit user tier c.operation w c.now s).1

  -- The requests that the checks allow, in their order.
  unfoldable pub allowed_requests : List CheckAt → RateLimiter → List Request
  allowed_requests [] s = []
  allowed_requests (c ∷ cs) s =
      let ((allowed, _), s') = check_rate_limit user tier c.operation w c.now s in
      let rest = allowed_requests cs s' in if allowed then request_of c ∷ rest else rest

-- The executions in the window that begins behind `x`.
abbrev pub in_window : ℕ → ℕ → Request → Bool
in_window x w r = ltb x r.timestamp && (leb r.timestamp (x + w) && counts_for execution r)

-- The limiter at the time `t` against the whole log of a user's allowed requests.
record IsFaithful (user : Key) (tier : Tier) (w t : ℕ) (log : List Request) (s : RateLimiter)
    : Type 0 where
  kept : get_or user [] s ≡ keep_if (is_recent t w) log
  bound : (x : ℕ) → count_if (in_window x w) log ≤ limit_for tier execution

module _ (user : Key) (tier : Tier) (w t now : ℕ) (log : List Request) (s : RateLimiter)
    (some_window : 0 < w) (later : t ≤ now) (h : IsFaithful user tier w t log s) where
  cleaned : clean user now w s ≡ keep_if (is_recent now w) log
  unfolding clean
  cleaned =
      rw (h.kept) (keep_if-keep_if (is_recent now w) (is_recent t w) log (λ r e. ground arith))

  counted :
      count now w execution (clean user now w s)
      ≡ count_if (λ r. is_recent now w r && counts_for execution r) log
  unfolding count
  counted = rw cleaned (
      count_if-keep_if (λ r. is_recent now w r && counts_for execution r) (is_recent now w) log
        (λ r e. ground arith))

  -- One more request, which the count of the window allows if it is an execution.
  bound_after :
      (op : Operation)
      → (same_operation op execution ≡ true
          → count_if (λ r. is_recent now w r && counts_for execution r) log
            < limit_for tier execution)
      → (x : ℕ)
      → count_if (in_window x w) (log ++ record { timestamp = now; operation = op } ∷ [])
        ≤ limit_for tier execution
  bound_after op fits x =
      let r : Request = record { timestamp = now; operation = op } in
      let split = count_if-append (in_window x w) log (r ∷ []) in
      elim (Bool-cases (in_window x w r)) [
        | inr out ↦ ground (arith, split, h.bound x)
        | inl inside ↦
            let fewer =
              count_if_mono (in_window x w) (λ q. is_recent now w q && counts_for execution q) log
                (λ q e. ground arith) in
            ground (arith, split, fewer, fits)
      ]

  fits_limit :
      (op : Operation)
      → (check_rate_limit user tier op w now s).0.0 ≡ true
      → same_operation op execution ≡ true
      → count_if (λ r. is_recent now w r && counts_for execution r) log < limit_for tier execution
  unfolding check_rate_limit
  fits_limit execution yes' e = ground (arith, counted)
  fits_limit default_operation yes' e = cc e
  fits_limit creation yes' e = cc e
  fits_limit (other_operation k) yes' e = cc e

  check_allowed :
      (op : Operation)
      → (check_rate_limit user tier op w now s).0.0 ≡ true
      → IsFaithful user tier w now
          (log ++ record { timestamp = now; operation = op } ∷ [])
          (check_rate_limit user tier op w now s).1
  unfolding check_rate_limit
  check_allowed op yes' =
      let r : Request = record { timestamp = now; operation = op } in
      let rs = clean user now w s in
      record {
        kept = ground (
          arith,
          yes',
          get-put_self user (rs ++ r ∷ []) s,
          cleaned,
          keep_if-append (is_recent now w) log (r ∷ []),
        );
        bound = bound_after op (fits_limit op yes');
      }

  check_refused :
      (op : Operation)
      → (check_rate_limit user tier op w now s).0.0 ≡ false
      → IsFaithful user tier w now log (check_rate_limit user tier op w now s).1
  unfolding check_rate_limit
  check_refused op no' = record {
    kept = ground (arith, no', get-put_self user (clean user now w s) s, cleaned);
    bound = h.bound;
  }

run-IsFaithful :
    (user : Key) (tier : Tier) (w t : ℕ) (cs : List CheckAt) (log : List Request) (s : RateLimiter)
    → 0 < w
    → InOrder t cs
    → IsFaithful user tier w t log s
    → (x : ℕ)
    → count_if (in_window x w) (log ++ allowed_requests user tier w cs s) ≤ limit_for tier execution
unfolding allowed_requests
run-IsFaithful user tier w t [] log s some_window order h x = rw (append-nil log) (h.bound x)
run-IsFaithful user tier w t (c ∷ cs) log s some_window order h x =
    let s' = (check_rate_limit user tier c.operation w c.now s).1 in
    elim (Bool-cases ((check_rate_limit user tier c.operation w c.now s).0.0)) [
      | inl yes' ↦
          let after =
            check_allowed user tier w t c.now log s some_window (order.0) h c.operation yes' in
          let rest =
            run-IsFaithful user tier w c.now cs (log ++ request_of c ∷ []) s' some_window (order.1)
              after x in
          rw yes'
            (rw (append_assoc log (request_of c ∷ []) (allowed_requests user tier w cs s')) at rest)
      | inr no' ↦
          let after =
            check_refused user tier w t c.now log s some_window (order.0) h c.operation no' in
          rw no' (run-IsFaithful user tier w c.now cs log s' some_window (order.1) after x)
    ]

-- The executions that a user's checks allow, in the order of time, never number more than the
-- limit of the tier in any window of time as long as the one that is checked, where the checks
-- are those of one tier, of operations of any kind, and begin on a limiter that knows nothing of
-- the user. The window is not empty.
pub allowed_requests_bound :
    (user : Key) (tier : Tier) (w : ℕ) (cs : List CheckAt) (s : RateLimiter)
    → 0 < w
    → InOrder 0 cs
    → get user s ≡ none
    → (x : ℕ)
    → count_if (in_window x w) (allowed_requests user tier w cs s) ≤ limit_for tier execution
allowed_requests_bound user tier w cs s some_window order new x =
    run-IsFaithful user tier w 0 cs [] s some_window order
      (record { kept = ground arith; bound = λ y. omega arith }) x
