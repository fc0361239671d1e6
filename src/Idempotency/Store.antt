-- ===== src/Idempotency/Store.antt =====
-- shared/security/idempotency.py: what `IdempotencyManager` uses of Redis. Each command is atomic
-- there; the locks and the records have prefixes of their own. Both expire, by a clock that
-- the process shares. `json` is here too.
use rg_agent_engine.Base.{ℕ, ◌+◌, is_past, ◌≡◌, Key, Option, none, some, ◌==◌, if◌then◌else◌}

pub data IdempotencyStatus : Type 0 where
  pending processing completed failed : IdempotencyStatus

-- The fields of a stored hash; `user_id`, which is never read, is left out.
pub record Fields : Type 0 where
  pub status : Option IdempotencyStatus
  pub created_at : Option ℕ
  pub completed_at : Option ℕ
  pub request_hash : Option Key
  pub response : Option Key
  pub error : Option Key

abbrev pub or_else {ℓ} : {A : Type ℓ} → Option A → Option A → Option A
or_else (some a) old = some a
or_else none old = old

-- A hash after `HSET` of some fields: the others stay.
abbrev pub overlay : Fields → Option Fields → Fields
overlay new none = new
overlay new (some old) = record {
  status = or_else new.status old.status;
  created_at = or_else new.created_at old.created_at;
  completed_at = or_else new.completed_at old.completed_at;
  request_hash = or_else new.request_hash old.request_hash;
  response = or_else new.response old.response;
  error = or_else new.error old.error;
}

pub record RecordStore : Type 1 where
  pub Store : Type 0
  -- `HGETALL`, where an empty answer is none, and `HSET`
  pub fields : Key → Store → Option Fields
  pub write : Key → Fields → Store → Store
  -- when a record expires, if it does, and `EXPIRE`, some seconds from now
  pub expires : Key → Store → Option ℕ
  pub expire : Key → ℕ → Store → Store
  -- when a held lock expires, `SET lock 1 NX EX` and `DELETE lock`
  pub lock_expires : Key → Store → Option ℕ
  pub lock : Key → ℕ → Store → Store
  pub unlock : Key → Store → Store
  -- the time, and some seconds in which nothing is sent to the store
  pub clock : Store → ℕ
  pub advance : ℕ → Store → Store
  -- `json.dumps` and `json.loads`, and what the text "null" is loaded as
  pub Value : Type 0
  pub dumps : Value → Key
  pub loads : Key → Value
  pub null : Value
  pub fields-write :
      (k j : Key) (f : Fields) (s : Store)
      → fields j (write k f s) ≡ (if k == j then some (overlay f (fields k s)) else fields j s)
  pub fields-expire : (k j : Key) (n : ℕ) (s : Store) → fields j (expire k n s) ≡ fields j s
  pub fields-lock : (k j : Key) (n : ℕ) (s : Store) → fields j (lock k n s) ≡ fields j s
  pub fields-unlock : (k j : Key) (s : Store) → fields j (unlock k s) ≡ fields j s
  pub fields-advance :
      (j : Key) (n : ℕ) (s : Store)
      → fields j (advance n s) ≡ (if is_past (clock s + n) (expires j s) then none else fields j s)
  -- a write keeps the time at which a record expires
  pub expires-write : (k j : Key) (f : Fields) (s : Store) → expires j (write k f s) ≡ expires j s
  -- of a record that is there
  pub expires-expire :
      (k j : Key) (n : ℕ) (s : Store) (f : Fields)
      → fields k s ≡ some f
      → expires j (expire k n s) ≡ (if k == j then some (clock s + n) else expires j s)
  pub expires-lock : (k j : Key) (n : ℕ) (s : Store) → expires j (lock k n s) ≡ expires j s
  pub expires-unlock : (k j : Key) (s : Store) → expires j (unlock k s) ≡ expires j s
  pub expires-advance :
      (j : Key) (n : ℕ) (s : Store)
      → expires j (advance n s)
        ≡ (if is_past (clock s + n) (expires j s) then none else expires j s)
  pub lock_expires-write :
      (k j : Key) (f : Fields) (s : Store) → lock_expires j (write k f s) ≡ lock_expires j s
  pub lock_expires-expire :
      (k j : Key) (n : ℕ) (s : Store) → lock_expires j (expire k n s) ≡ lock_expires j s
  pub lock_expires-lock :
      (k j : Key) (n : ℕ) (s : Store)
      → lock_expires j (lock k n s) ≡ (if k == j then some (clock s + n) else lock_expires j s)
  pub lock_expires-unlock :
      (k j : Key) (s : Store)
      → lock_expires j (unlock k s) ≡ (if k == j then none else lock_expires j s)
  pub lock_expires-advance :
      (j : Key) (n : ℕ) (s : Store)
      → lock_expires j (advance n s)
        ≡ (if is_past (clock s + n) (lock_expires j s) then none else lock_expires j s)
  pub clock-write : (k : Key) (f : Fields) (s : Store) → clock (write k f s) ≡ clock s
  pub clock-expire : (k : Key) (n : ℕ) (s : Store) → clock (expire k n s) ≡ clock s
  pub clock-lock : (k : Key) (n : ℕ) (s : Store) → clock (lock k n s) ≡ clock s
  pub clock-unlock : (k : Key) (s : Store) → clock (unlock k s) ≡ clock s
  pub clock-advance : (n : ℕ) (s : Store) → clock (advance n s) ≡ clock s + n
