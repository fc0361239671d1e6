-- ===== src/Idempotency/Requests.antt =====
-- shared/security/idempotency.py: what becomes of requests with one key.
use rg_agent_engine.Base.{
  ℕ, suc, ◌≡◌, refl, Key, Bool, ◌+◌, ◌<◌, subst, leb, arith, ap, true, false, none, some, ◌∙◌,
  ==_refl,
}
use rg_agent_engine.Base.Exec.{ok}
use rg_agent_engine.Idempotency.Store.{RecordStore}
use rg_agent_engine.Idempotency.Manager.{
  begins, lock_ttl, is_locked, Others, try_lock, begin, by_record, check_and_start, complete,
}
use rg_agent_engine.Idempotency.Records.{
  is_locked-some, check_unlocked, check_locked, started, IsStored, finished, begin-IsStored,
  advance-IsStored, complete-IsStored, clock-begin, clock-complete, unlocked_after, answer_of,
  check_after, same_leb,
}

module _ (redis : RecordStore) where
  open redis use {
    Store, fields, write, expires, expire, lock_expires, lock, unlock, clock, advance, Value, dumps,
    loads,
  }

  -- A first request with a key is told to process it, and completes it before its record expires.
  -- Of the next request with the same key, where no other call comes in between: if the record has
  -- expired by then, it is told to process the key too; else one with the same content gets the stored response, as
  -- `json.loads` reads the text that `json.dumps` wrote, with the times of both, and one with other
  -- content is refused.
  pub replays_response :
      (fuel fuel' : ℕ) (k hash other : Key) (ttl ttl' n m : ℕ) (response : Value)
      (others others' : Others redis) (s : Store)
      → is_locked redis k s ≡ false
      → fields k s ≡ none
      → n < ttl
      → let s1 = begin redis k hash ttl (clock s) (lock k lock_ttl s) in
        let s2 = complete redis k response (advance n s1) in
        (check_and_start redis (suc fuel) k hash ttl others s ≡ some (ok begins, s1))
        × ((s3 : Store) × (check_and_start redis (suc fuel') k other ttl' others' (advance m s2)
              ≡ some (
                answer_of redis k hash other (clock s) (clock s + n) response (leb ttl (n + m)),
                s3,
              )))
  unfolding by_record
  replays_response fuel fuel' k hash other ttl ttl' n m response others others' s free empty h =
      let s1 = begin redis k hash ttl (clock s) (lock k lock_ttl s) in
      let at : clock (advance n s1) ≡ clock s + n =
        redis.clock-advance n s1 ∙ ap (λ x. x + n) (clock-begin redis k hash ttl s) in
      let t = clock s + ttl in
      let stored1 =
        advance-IsStored redis k (started redis hash (clock s)) t n s1
          (rw (clock-begin redis k hash ttl s) (omega (arith, h)))
          (begin-IsStored redis k hash ttl s empty) in
      let s2 = complete redis k response (advance n s1) in
      let stored2 : IsStored redis k (finished redis hash (clock s) (clock s + n) response) t s2 =
        subst (λ (x : ℕ). IsStored redis k (finished redis hash (clock s) x response) t s2) at
          (complete-IsStored redis k response (started redis hash (clock s)) t (advance n s1)
            stored1) in
      let at2 : clock s2 ≡ clock s + n = clock-complete redis k response (advance n s1) ∙ at in
      let same_time : leb t (clock s2 + m) ≡ leb ttl (n + m) =
        same_leb redis ttl n m (clock s) (clock s2) at2 in
      (
        rw (check_unlocked redis fuel k hash ttl others s free, empty) refl,
        subst
            (λ (b : Bool).
              (s3 : Store) × (check_and_start redis (suc fuel') k other ttl' others' (advance m s2)
                ≡ some (answer_of redis k hash other (clock s) (clock s + n) response b, s3)))
            same_time
            (check_after redis fuel' k hash other ttl' (clock s) (clock s + n) t m response others'
              s2 (unlocked_after redis k response m (advance n s1)) stored2),
      )

  -- While a first request holds the lock and has found no record, a second one with the same key,
  -- whatever its content, is told to process it too, without a wait.
  pub starts_twice :
      (fuel : ℕ) (k other : Key) (ttl : ℕ) (others : Others redis) (s : Store)
      → is_locked redis k s ≡ false
      → fields k s ≡ none
      → let (acquired, s1) = try_lock redis k s in
        (acquired ≡ true)
        × (fields k s1 ≡ none)
        × (check_and_start redis (suc fuel) k other ttl others s1
            ≡ some (ok begins, begin redis k other ttl (clock s1) s1))
  starts_twice fuel k other ttl others s free empty =
      let unread = redis.fields-lock k k lock_ttl s ∙ empty in
      let until : lock_expires k (lock k lock_ttl s) ≡ some (clock s + lock_ttl) =
        redis.lock_expires-lock k k lock_ttl s ∙ rw (==_refl k) refl in
      let held = is_locked-some redis k (clock s + lock_ttl) (lock k lock_ttl s) until in
      rw free
        (refl, unread, check_locked redis fuel k other ttl others (lock k lock_ttl s) held unread)
