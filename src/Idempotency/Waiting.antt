-- ===== src/Idempotency/Waiting.antt =====
-- shared/security/idempotency.py: requests that wait for a record that stays PROCESSING.
use rg_agent_engine.Base.{ℕ, ◌+◌, ◌≡◌, Key, true, false, some, List, [], ◌∷◌, is_past}
use rg_agent_engine.Idempotency.Store.{processing, Fields, RecordStore}
use rg_agent_engine.Idempotency.Manager.{same_hash, Others}

module _ (redis : RecordStore) where
  open redis use {Store, fields, expires, lock, clock, advance}

  -- A record that another process has begun.
  abbrev pub IsBegun : Key → Key → Store → Type 0
  IsBegun k hash s =
      (f : Fields) × (fields k s ≡ some f)
      × (f.status ≡ some processing)
      × (same_hash hash f.request_hash ≡ true)

  -- Sleeps of these numbers of seconds, in which nobody changes the store.
  abbrev pub idles : List ℕ → Others redis
  idles [] = []
  idles (n ∷ ns) = advance n ∷ idles ns

  abbrev pub total : List ℕ → ℕ
  total [] = 0
  total (n ∷ ns) = n + total ns

  -- The record does not expire within the sleeps.
  pub record IsHeld (k hash : Key) (ns : List ℕ) (s : Store) : Type 0 where
    pub begun : IsBegun k hash s
    pub outlasts : is_past (clock s + total ns) (expires k s) ≡ false
