-- ===== src/Idempotency/Tests.antt =====
-- shared/security/idempotency.py: requests with one key, on a store whose records and locks are
-- functions of their keys.
use rg_agent_engine.Base.{
  ℕ, ◌+◌, ◌-◌, ◌≡◌, refl, Key, true, false, Option, none, some, [], ◌==◌, leb, is_past,
  if◌then◌else◌, arith, ap, ◌∙◌,
}
use rg_agent_engine.Base.Exec.{ok, err}
use rg_agent_engine.Base.Expiring.{
  Item, place, ap_if, place_same, item_of, until_of, expire_at, drop_item, expire_found, item_kept,
}
use rg_agent_engine.Idempotency.Store.{completed, Fields, overlay, RecordStore}
use rg_agent_engine.Idempotency.Manager.{
  reused_key, begins, lock_ttl, is_locked, try_lock, begin, check_and_start, by_record, complete,
  fail, get_record,
}
use rg_agent_engine.Idempotency.Records.{answer_of}
use rg_agent_engine.Idempotency.Requests.{replays_response, starts_twice}

record Tables : Type 0 where
  time : ℕ
  records : Key → Option (Item Fields)
  locks : Key → Option ℕ

abbrev drop_lock : ℕ → Option ℕ → Option ℕ
drop_lock now o = if is_past now o then none else o

abbrev written : Key → Fields → Tables → Option (Item Fields)
written k f s =
    some (record { item = overlay f (item_of (s.records k)); until = until_of (s.records k) })

redis : RecordStore
redis = record {
  Store = Tables;
  fields = λ k s. item_of (s.records k);
  write = λ k f s. record s { records = place k (written k f s) s.records };
  expires = λ k s. until_of (s.records k);
  expire = λ k n s. record s { records = place k (expire_at (s.time + n) (s.records k)) s.records };
  lock_expires = λ k s. s.locks k;
  lock = λ k n s. record s { locks = place k (some (s.time + n)) s.locks };
  unlock = λ k s. record s { locks = place k none s.locks };
  clock = λ s. s.time;
  advance = λ n s. record {
    time = s.time + n;
    records = λ k. drop_item (s.time + n) (s.records k);
    locks = λ k. drop_lock (s.time + n) (s.locks k);
  };
  Value = Key;
  dumps = λ v. v + 1;
  loads = λ k. k - 1;
  null = 0;
  fields-write = λ k j f s. ap_if item_of (k == j) (written k f s) (s.records j);
  fields-expire = λ k j n s.
      place_same item_of k j (expire_at (s.time + n) (s.records k)) s.records
        (item_kept (s.time + n) (s.records k));
  fields-lock = λ k j n s. refl;
  fields-unlock = λ k j s. refl;
  fields-advance =
      λ j n s. ap_if item_of (is_past (s.time + n) (until_of (s.records j))) none (s.records j);
  expires-write = λ k j f s. place_same until_of k j (written k f s) s.records refl;
  expires-expire = λ k j n s f h.
      ap_if until_of (k == j) (expire_at (s.time + n) (s.records k)) (s.records j)
      ∙ ap (λ u. if k == j then u else until_of (s.records j))
          (expire_found (s.time + n) (s.records k) f h);
  expires-lock = λ k j n s. refl;
  expires-unlock = λ k j s. refl;
  expires-advance =
      λ j n s. ap_if until_of (is_past (s.time + n) (until_of (s.records j))) none (s.records j);
  lock_expires-write = λ k j f s. refl;
  lock_expires-expire = λ k j n s. refl;
  lock_expires-lock = λ k j n s. refl;
  lock_expires-unlock = λ k j s. refl;
  lock_expires-advance = λ j n s. refl;
  clock-write = λ k f s. refl;
  clock-expire = λ k n s. refl;
  clock-lock = λ k n s. refl;
  clock-unlock = λ k s. refl;
  clock-advance = λ n s. refl;
}

-- What a call returns, without the store.
abbrev drop_store {ℓ κ} : {A : Type ℓ} {B : Type κ} → Option (A × B) → Option A
drop_store none = none
drop_store (some r) = some r.0

vacant : redis.Store
unfolding redis
vacant = record { time = 100; records = λ k. none; locks = λ k. none }

is_free : is_locked redis 4 vacant ≡ false
unfolding is_locked redis vacant
is_free = refl

is_empty : redis.fields 4 vacant ≡ none
unfolding redis vacant
is_empty = refl

abbrev now : ℕ
now = redis.clock vacant

abbrev first : redis.Store
first = begin redis 4 70 60 now (redis.lock 4 lock_ttl vacant)

abbrev second : redis.Value → redis.Store
second response = complete redis 4 response (redis.advance 20 first)

response : redis.Value
unfolding redis
response = 55

replays_response_example :
    (check_and_start redis 1 4 70 60 [] vacant ≡ some (ok begins, first))
    × ((s3 : redis.Store) × (check_and_start redis 1 4 70 60 [] (redis.advance 30 (second response))
          ≡ some (answer_of redis 4 70 70 now (now + 20) response (leb 60 (20 + 30)), s3)))
replays_response_example =
    replays_response redis 0 0 4 70 70 60 60 20 30 response [] [] vacant is_free is_empty
      (omega arith)

starts_twice_example :
    let (acquired, s1) = try_lock redis 4 vacant in
    (acquired ≡ true)
    × (redis.fields 4 s1 ≡ none)
    × (check_and_start redis 1 4 71 60 [] s1
        ≡ some (ok begins, begin redis 4 71 60 (redis.clock s1) s1))
starts_twice_example = starts_twice redis 0 4 71 60 [] vacant is_free is_empty

-- A request that is completed after its record has expired leaves a record that never does, without
-- the hash of a request, so that every later request is refused.
refused_for_good :
    drop_store (
      check_and_start redis 1 4 70 60 []
        (redis.advance 90000 (complete redis 4 response (redis.advance 70 first))))
    ≡ some (err reused_key)
unfolding check_and_start by_record complete is_locked redis vacant response
refused_for_good = refl

-- A request that fails, is begun again and completed keeps the error of its first attempt.
error_kept :
    get_record redis 4 (complete redis 4 response (begin redis 4 70 60 120 (fail redis 4 9 first)))
    ≡ ok (
        some (record {
          key = 4;
          status = completed;
          created_at = 120;
          completed_at = some 100;
          request_hash = 70;
          response = response;
          error = some 9;
        }))
unfolding get_record complete fail redis vacant response
error_kept = refl
