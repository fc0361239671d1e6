-- ===== src/Idempotency/Manager.antt =====
-- shared/security/idempotency.py: the methods of a connected `IdempotencyManager`. One key stands for
-- the user with the idempotency key, and the hash of the request is an argument. What other
-- processes do while a call sleeps is a list of changes of the store, one for each sleep.
use rg_agent_engine.Base.{
  ℕ, zero, suc, Key, Bool, true, false, Option, none, some, List, [], ◌∷◌, ◌==◌, if◌then◌else◌,
}
use rg_agent_engine.Base.Exec.{Result, ok, err}
use rg_agent_engine.Idempotency.Store.{
  IdempotencyStatus, pending, processing, completed, failed, Fields, RecordStore,
}

pub record IdempotencyRecord (Value : Type 0) : Type 0 where
  pub key : Key
  pub status : IdempotencyStatus
  pub created_at : ℕ
  pub completed_at : Option ℕ
  pub request_hash : Key
  pub response : Value
  pub error : Option Key

-- The ValueError of a key that is used with another request, and the KeyError of a record that lacks
-- a field.
pub data StartError : Type 0 where
  reused_key missing_field : StartError

-- (True, None), and (False, record)
pub data Started (Value : Type 0) : Type 0 where
  begins : Started Value
  replays : IdempotencyRecord Value → Started Value

-- `existing.get("status", "pending")`
abbrev pub status_of : Fields → IdempotencyStatus
status_of f = elim f.status [ none ↦ pending | some x ↦ x ]

-- `existing.get("request_hash") == request_hash`
abbrev pub same_hash : Key → Option Key → Bool
same_hash hash none = false
same_hash hash (some h) = h == hash

-- `float(existing.get("completed_at", 0)) or None`
abbrev pub or_none : Option ℕ → Option ℕ
or_none none = none
or_none (some t) = if t == 0 then none else some t

-- Thirty seconds, in steps of half a second.
abbrev pub max_polls : ℕ
max_polls = 60

-- `LOCK_TTL_SECONDS`
abbrev pub lock_ttl : ℕ
lock_ttl = 30

module _ (redis : RecordStore) where
  open redis use {
    Store, fields, write, expire, lock_expires, lock, unlock, clock, Value, dumps, loads, null,
  }

  -- `json.loads(existing.get("response", "null"))`
  abbrev pub loaded : Option Key → Value
  loaded none = null
  loaded (some text) = loads text

  -- The record that is returned for these fields.
  abbrev pub record_of : Key → Fields → Result StartError (IdempotencyRecord Value)
  record_of key f = elim f.created_at [
    | none ↦ err missing_field
    | some created_at ↦ elim f.request_hash [
      | none ↦ err missing_field
      | some request_hash ↦ ok (record {
        key = key;
        status = status_of f;
        created_at = created_at;
        completed_at = or_none f.completed_at;
        request_hash = request_hash;
        response = loaded f.response;
        error = f.error;
      })
    ]
  ]

  abbrev pub replay :
      Result StartError (IdempotencyRecord Value) → Result StartError (Started Value)
  replay (ok r) = ok (replays r)
  replay (err e) = err e

  unfoldable pub is_locked : Key → Store → Bool
  is_locked k s = elim (lock_expires k s) [ none ↦ false | some t ↦ true ]

  abbrev pub Others : Type 0
  Others = List (Store → Store)

  -- The `SET` of the lock: whether it was acquired.
  abbrev pub try_lock : Key → Store → Bool × Store
  try_lock k s = if is_locked k s then (false, s) else (true, lock k lock_ttl s)

  -- The test at which `_wait_for_completion` returns.
  abbrev pub is_over : Option Fields → Bool
  is_over none = true
  is_over (some f) = elim (status_of f) [ completed ↦ true | failed ↦ true | _ ↦ false ]

  -- `_wait_for_completion`: none where the call sleeps for longer than is given.
  unfoldable pub wait_for_completion : ℕ → Key → Others → Store → Option (Others × Store)
  wait_for_completion zero k others s = some (others, s)
  wait_for_completion (suc polls) k [] s = if is_over (fields k s) then some ([], s) else none
  wait_for_completion (suc polls) k (f ∷ others) s =
      let later = wait_for_completion polls k others (f s) in
      if is_over (fields k s) then some (f ∷ others, s) else later

  abbrev pub Answer : Type 0
  Answer = Option (Result StartError (Started Value) × Store)

  -- The new record of `check_and_start`, which expires `ttl` seconds later.
  abbrev pub begin : Key → Key → ℕ → ℕ → Store → Store
  begin k hash ttl now s = expire k ttl (
      write k
        (record {
          status = some processing;
          created_at = some now;
          completed_at = none;
          request_hash = some hash;
          response = none;
          error = none;
        })
        s)

  -- What follows a wait.
  abbrev pub after_wait : Option (Others × Store) → (Others → Store → Answer) → Answer
  after_wait none next = none
  after_wait (some (others, s)) next = next others s

  -- `check_and_start` by the status of a record with the same hash, given the recursive call
  unfoldable pub by_status :
      (Others → Store → Answer)
      → Key
      → Key
      → ℕ
      → ℕ
      → Fields
      → IdempotencyStatus
      → Others
      → Store
      → Answer
  by_status again k hash ttl now f completed others s = some (replay (record_of k f), unlock k s)
  by_status again k hash ttl now f processing others s =
      after_wait (wait_for_completion max_polls k others s) again
  by_status again k hash ttl now f failed others s = some (ok begins, begin k hash ttl now s)
  by_status again k hash ttl now f pending others s = some (ok begins, begin k hash ttl now s)

  -- `check_and_start` after the lock
  unfoldable pub by_record :
      (Others → Store → Answer) → Key → Key → ℕ → ℕ → Option Fields → Others → Store → Answer
  by_record again k hash ttl now none others s = some (ok begins, begin k hash ttl now s)
  by_record again k hash ttl now (some f) others s =
      if same_hash hash f.request_hash
      then by_status again k hash ttl now f (status_of f) others s
      else some (err reused_key, unlock k s)

  -- `check_and_start`, with fuel for its calls of itself: none where it still waits
  unfoldable pub check_and_start : ℕ → Key → Key → ℕ → Others → Store → Answer
  check_and_start zero k hash ttl others s = none
  check_and_start (suc fuel) k hash ttl others s =
      let (acquired, s1) = try_lock k s in
      after_wait (if acquired then some (others, s1) else wait_for_completion max_polls k others s1)
        (λ rest s2.
          by_record (check_and_start fuel k hash ttl) k hash ttl (clock s) (fields k s2) rest s2)

  -- `complete`
  unfoldable pub complete : Key → Value → Store → Store
  complete k response s = unlock k (
      write k
        (record {
          status = some completed;
          created_at = none;
          completed_at = some (clock s);
          request_hash = none;
          response = some (dumps response);
          error = none;
        })
        s)

  -- `fail`
  unfoldable pub fail : Key → Key → Store → Store
  fail k error s = unlock k (
      write k
        (record {
          status = some failed;
          created_at = none;
          completed_at = some (clock s);
          request_hash = none;
          response = none;
          error = some error;
        })
        s)

  -- `get_record`
  unfoldable pub get_record : Key → Store → Result StartError (Option (IdempotencyRecord Value))
  get_record k s = elim (fields k s) [
    | none ↦ ok none
    | some f ↦ elim (record_of k f) [ ok r ↦ ok (some r) | err e ↦ err e ]
  ]
