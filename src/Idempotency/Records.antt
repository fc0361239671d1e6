-- ===== src/Idempotency/Records.antt =====
-- shared/security/idempotency.py: the record of a key through the calls, and what a call does with it.
use rg_agent_engine.Base.{
  ℕ, suc, ◌≡◌, refl, inl, inr, Key, Bool, ◌+◌, ◌<◌, leb, arith, true, false, none, some, [], ◌∷◌,
  ◌==◌, if◌then◌else◌, ◌∙◌, Bool-cases, ==_refl,
}
use rg_agent_engine.Base.Exec.{Result, ok, err}
use rg_agent_engine.Idempotency.Store.{processing, completed, Fields, overlay, RecordStore}
use rg_agent_engine.Idempotency.Manager.{
  reused_key, begins, replays, or_none, lock_ttl, is_locked, StartError, Started, Others,
  wait_for_completion, begin, by_status, by_record, check_and_start, complete,
}

module _ (redis : RecordStore) where
  open redis use {
    Store, fields, write, expires, expire, lock_expires, lock, unlock, clock, advance, Value, dumps,
    loads,
  }

  is_locked-none : (k : Key) (s : Store) → lock_expires k s ≡ none → is_locked redis k s ≡ false
  unfolding is_locked
  is_locked-none k s e = rw (e, is_locked) refl

  pub is_locked-some :
      (k : Key) (u : ℕ) (s : Store) → lock_expires k s ≡ some u → is_locked redis k s ≡ true
  unfolding is_locked
  is_locked-some k u s e = rw (e, is_locked) refl

  -- A call that gets the lock goes on with the record that is there.
  pub check_unlocked :
      (fuel : ℕ) (k hash : Key) (ttl : ℕ) (others : Others redis) (s : Store)
      → is_locked redis k s ≡ false
      → check_and_start redis (suc fuel) k hash ttl others s
        ≡ by_record redis
            (check_and_start redis fuel k hash ttl)
            k
            hash
            ttl
            (clock s)
            (fields k s)
            others
            (lock k lock_ttl s)
  unfolding check_and_start
  check_unlocked fuel k hash ttl others s free = rw (free, redis.fields-lock k k lock_ttl s) refl

  wait_empty :
      (polls : ℕ) (k : Key) (others : Others redis) (s : Store)
      → fields k s ≡ none
      → wait_for_completion redis (suc polls) k others s ≡ some (others, s)
  unfolding wait_for_completion
  wait_empty polls k [] s e = rw e refl
  wait_empty polls k (f ∷ others) s e = rw e refl

  -- A call that does not get the lock, with no record to wait for, goes on at once.
  pub check_locked :
      (fuel : ℕ) (k hash : Key) (ttl : ℕ) (others : Others redis) (s : Store)
      → is_locked redis k s ≡ true
      → fields k s ≡ none
      → check_and_start redis (suc fuel) k hash ttl others s
        ≡ some (ok begins, begin redis k hash ttl (clock s) s)
  unfolding check_and_start by_record
  check_locked fuel k hash ttl others s held empty =
      rw (held, wait_empty 59 k others s empty, empty) refl

  fields-write_self :
      (k : Key) (f : Fields) (s : Store) → fields k (write k f s) ≡ some (overlay f (fields k s))
  fields-write_self k f s = redis.fields-write k k f s ∙ rw (==_refl k) refl

  abbrev pub started : Key → ℕ → Fields
  started hash now = record {
    status = some processing;
    created_at = some now;
    completed_at = none;
    request_hash = some hash;
    response = none;
    error = none;
  }

  -- A record that is there, and the time at which it expires.
  abbrev pub IsStored : Key → Fields → ℕ → Store → Type 0
  IsStored k f t s = (fields k s ≡ some f) × (expires k s ≡ some t)

  pub begin-IsStored :
      (k hash : Key) (ttl : ℕ) (s : Store)
      → fields k s ≡ none
      → IsStored k
          (started hash (clock s))
          (clock s + ttl)
          (begin redis k hash ttl (clock s) (lock k lock_ttl s))
  begin-IsStored k hash ttl s empty =
      let f = started hash (clock s) in
      let s0 = lock k lock_ttl s in
      let w = write k f s0 in
      let written : fields k w ≡ some f =
        fields-write_self k f s0 ∙ rw (redis.fields-lock k k lock_ttl s, empty) refl in
      (
        redis.fields-expire k k ttl w ∙ written,
        redis.expires-expire k k ttl w f written
            ∙ rw (==_refl k, redis.clock-write k f s0, redis.clock-lock k lock_ttl s) refl,
      )

  pub advance-IsStored :
      (k : Key) (f : Fields) (t n : ℕ) (s : Store)
      → clock s + n < t
      → IsStored k f t s
      → IsStored k f t (advance n s)
  advance-IsStored k f t n s h (there, until) =
      let still : leb t (clock s + n) ≡ false = ground arith in
      (
        redis.fields-advance k n s ∙ rw (until, still) there,
        redis.expires-advance k n s ∙ rw (until, still) refl,
      )

  pub complete-IsStored :
      (k : Key) (response : Value) (f : Fields) (t : ℕ) (s : Store)
      → IsStored k f t s
      → IsStored k
          (record f {
            status = some completed;
            completed_at = some (clock s);
            response = some (dumps response);
          })
          t
          (complete redis k response s)
  unfolding complete
  complete-IsStored k response f t s (there, until) = (
    redis.fields-unlock k k _ ∙ fields-write_self k _ s ∙ rw there refl,
    redis.expires-unlock k k _ ∙ redis.expires-write k k _ s ∙ until,
  )

  pub clock-begin :
      (k hash : Key) (ttl : ℕ) (s : Store)
      → clock (begin redis k hash ttl (clock s) (lock k lock_ttl s)) ≡ clock s
  clock-begin k hash ttl s =
      let f = started hash (clock s) in
      let s0 = lock k lock_ttl s in
      redis.clock-expire k ttl (write k f s0)
      ∙ redis.clock-write k f s0
      ∙ redis.clock-lock k lock_ttl s

  pub clock-complete :
      (k : Key) (response : Value) (s : Store) → clock (complete redis k response s) ≡ clock s
  unfolding complete
  clock-complete k response s = redis.clock-unlock k _ ∙ redis.clock-write k _ s

  pub unlocked_after :
      (k : Key) (response : Value) (n : ℕ) (s : Store)
      → is_locked redis k (advance n (complete redis k response s)) ≡ false
  unfolding complete
  unlocked_after k response n s =
      let s1 = complete redis k response s in
      let free : lock_expires k s1 ≡ none = redis.lock_expires-unlock k k _ ∙ rw (==_refl k) refl in
      let still : lock_expires k (advance n s1) ≡ none =
        redis.lock_expires-advance k n s1 ∙ rw free refl in
      is_locked-none k (advance n s1) still

  abbrev pub finished : Key → ℕ → ℕ → Value → Fields
  finished hash created later response = record (started hash created) {
    status = some completed;
    completed_at = some later;
    response = some (dumps response);
  }

  -- What a later request with the key is answered.
  abbrev pub answer_of : Key → Key → Key → ℕ → ℕ → Value → Bool → Result StartError (Started Value)
  answer_of k hash other created later response expired =
      if expired
      then ok begins
      else if hash == other
      then ok (
          replays (record {
            key = k;
            status = completed;
            created_at = created;
            completed_at = or_none (some later);
            request_hash = hash;
            response = loads (dumps response);
            error = none;
          }))
      else err reused_key

  check_completed :
      (fuel : ℕ) (k hash other : Key) (ttl created later t : ℕ) (response : Value)
      (others : Others redis) (s : Store)
      → is_locked redis k s ≡ false
      → IsStored k (finished hash created later response) t s
      → (s' : Store) × (check_and_start redis (suc fuel) k other ttl others s
          ≡ some (answer_of k hash other created later response false, s'))
  unfolding by_record by_status
  check_completed fuel k hash other ttl created later t response others s free (there, until) = (
    unlock k (lock k lock_ttl s),
    rw (check_unlocked fuel k other ttl others s free, there)
        (elim (Bool-cases (hash == other)) [
          | inl same ↦ rw same refl
          | inr different ↦ rw different refl
        ]),
  )

  -- Where there is no record, a call goes on without one.
  check_gone :
      (fuel : ℕ) (k hash : Key) (ttl : ℕ) (others : Others redis) (s : Store)
      → fields k s ≡ none
      → (s' : Store) × (check_and_start redis (suc fuel) k hash ttl others s ≡ some (ok begins, s'))
  unfolding by_record
  check_gone fuel k hash ttl others s empty = elim (Bool-cases (is_locked redis k s)) [
    | inr free ↦ (
      begin redis k hash ttl (clock s) (lock k lock_ttl s),
      check_unlocked fuel k hash ttl others s free ∙ rw empty refl,
    )
    | inl held ↦
        (begin redis k hash ttl (clock s) s, check_locked fuel k hash ttl others s held empty)
  ]

  pub same_leb : (ttl n m c d : ℕ) → d ≡ c + n → leb (c + ttl) (d + m) ≡ leb ttl (n + m)
  same_leb ttl n m c d e = ground arith

  pub check_after :
      (fuel : ℕ) (k hash other : Key) (ttl created later t m : ℕ) (response : Value)
      (others : Others redis) (s : Store)
      → is_locked redis k (advance m s) ≡ false
      → IsStored k (finished hash created later response) t s
      → (s' : Store) × (check_and_start redis (suc fuel) k other ttl others (advance m s)
          ≡ some (answer_of k hash other created later response (leb t (clock s + m)), s'))
  check_after fuel k hash other ttl created later t m response others s free stored =
      elim (Bool-cases (leb t (clock s + m))) [
        | inl gone ↦
            let none_left : fields k (advance m s) ≡ none =
              redis.fields-advance k m s ∙ rw (stored.1, gone) refl in
            let (s', e) = check_gone fuel k other ttl others (advance m s) none_left in
            (s', rw gone e)
        | inr kept ↦
            let stored' =
              advance-IsStored k (finished hash created later response) t m s (ground arith)
                stored in
            let (s', e) =
              check_completed fuel k hash other ttl created later t response others (advance m s)
                free stored' in
            (s', rw kept e)
      ]
