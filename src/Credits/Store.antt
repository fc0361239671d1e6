-- ===== src/Credits/Store.antt =====
-- shared/security/idempotency.py: what `AtomicCreditManager` uses of Redis. Each command is atomic
-- there. The keys of balances, transactions and reservations have prefixes of their own.
use rg_agent_engine.Base.{ℕ, ◌+◌, is_past, ◌≡◌, Key, Option, none, some, ◌==◌, if◌then◌else◌}
use rg_agent_engine.Base.Int.{ℤ, ◌+ℤ◌}

-- The two fields of a stored hash that are read again or that every write sets.
pub record Entry : Type 0 where
  pub user_id : Key
  pub amount : ℤ

pub record CreditStore : Type 1 where
  pub Store : Type 0
  -- `GET credits:{user}`, as a number, and 0 where there is none
  pub balance : Key → Store → ℤ
  -- `INCRBYFLOAT`
  pub incr_balance : Key → ℤ → Store → Store
  -- `HGETALL credit_tx:{id}`, where an empty answer is none, and `HSET`
  pub transaction : Key → Store → Option Entry
  pub set_transaction : Key → Entry → Store → Store
  -- when a transaction expires, if it does, and `EXPIRE`, some seconds from now
  pub transaction_expires : Key → Store → Option ℕ
  pub expire_transaction : Key → ℕ → Store → Store
  -- `HGETALL credit_reserve:{id}`, `HSET`, `EXPIRE` and `DELETE`
  pub reservation : Key → Store → Option Entry
  pub set_reservation : Key → Entry → Store → Store
  pub reservation_expires : Key → Store → Option ℕ
  pub expire_reservation : Key → ℕ → Store → Store
  pub delete_reservation : Key → Store → Store
  -- the time, and some seconds in which nothing is sent to the store
  pub clock : Store → ℕ
  pub advance : ℕ → Store → Store
  pub balance-incr_balance :
      (k j : Key) (a : ℤ) (s : Store)
      → balance j (incr_balance k a s) ≡ (if k == j then balance j s +ℤ a else balance j s)
  pub balance-set_transaction :
      (k j : Key) (e : Entry) (s : Store) → balance j (set_transaction k e s) ≡ balance j s
  pub balance-set_reservation :
      (k j : Key) (e : Entry) (s : Store) → balance j (set_reservation k e s) ≡ balance j s
  pub balance-expire_transaction :
      (k j : Key) (n : ℕ) (s : Store) → balance j (expire_transaction k n s) ≡ balance j s
  pub balance-expire_reservation :
      (k j : Key) (n : ℕ) (s : Store) → balance j (expire_reservation k n s) ≡ balance j s
  pub balance-advance : (j : Key) (n : ℕ) (s : Store) → balance j (advance n s) ≡ balance j s
  pub balance-delete_reservation :
      (k j : Key) (s : Store) → balance j (delete_reservation k s) ≡ balance j s
  pub transaction-incr_balance :
      (k j : Key) (a : ℤ) (s : Store) → transaction j (incr_balance k a s) ≡ transaction j s
  pub transaction-set_transaction :
      (k j : Key) (e : Entry) (s : Store)
      → transaction j (set_transaction k e s) ≡ (if k == j then some e else transaction j s)
  pub transaction-expire_transaction :
      (k j : Key) (n : ℕ) (s : Store) → transaction j (expire_transaction k n s) ≡ transaction j s
  pub transaction-set_reservation :
      (k j : Key) (e : Entry) (s : Store) → transaction j (set_reservation k e s) ≡ transaction j s
  pub transaction-expire_reservation :
      (k j : Key) (n : ℕ) (s : Store) → transaction j (expire_reservation k n s) ≡ transaction j s
  pub transaction-advance :
      (j : Key) (n : ℕ) (s : Store)
      → transaction j (advance n s)
        ≡ (if is_past (clock s + n) (transaction_expires j s) then none else transaction j s)
  pub transaction_expires-incr_balance :
      (k j : Key) (a : ℤ) (s : Store)
      → transaction_expires j (incr_balance k a s) ≡ transaction_expires j s
  -- a write keeps the time at which a transaction expires
  pub transaction_expires-set_transaction :
      (k j : Key) (e : Entry) (s : Store)
      → transaction_expires j (set_transaction k e s) ≡ transaction_expires j s
  -- of a transaction that is there
  pub transaction_expires-expire_transaction :
      (k j : Key) (n : ℕ) (s : Store) (e : Entry)
      → transaction k s ≡ some e
      → transaction_expires j (expire_transaction k n s)
        ≡ (if k == j then some (clock s + n) else transaction_expires j s)
  pub transaction_expires-set_reservation :
      (k j : Key) (e : Entry) (s : Store)
      → transaction_expires j (set_reservation k e s) ≡ transaction_expires j s
  pub transaction_expires-expire_reservation :
      (k j : Key) (n : ℕ) (s : Store)
      → transaction_expires j (expire_reservation k n s) ≡ transaction_expires j s
  pub transaction_expires-delete_reservation :
      (k j : Key) (s : Store)
      → transaction_expires j (delete_reservation k s) ≡ transaction_expires j s
  pub transaction_expires-advance :
      (j : Key) (n : ℕ) (s : Store)
      → transaction_expires j (advance n s) ≡ (
          if is_past (clock s + n) (transaction_expires j s) then none else transaction_expires j s)
  pub transaction-delete_reservation :
      (k j : Key) (s : Store) → transaction j (delete_reservation k s) ≡ transaction j s
  pub reservation-incr_balance :
      (k j : Key) (a : ℤ) (s : Store) → reservation j (incr_balance k a s) ≡ reservation j s
  pub reservation-set_reservation :
      (k j : Key) (e : Entry) (s : Store)
      → reservation j (set_reservation k e s) ≡ (if k == j then some e else reservation j s)
  pub reservation-expire_reservation :
      (k j : Key) (n : ℕ) (s : Store) → reservation j (expire_reservation k n s) ≡ reservation j s
  pub reservation-delete_reservation :
      (k j : Key) (s : Store)
      → reservation j (delete_reservation k s) ≡ (if k == j then none else reservation j s)
  pub reservation-advance :
      (j : Key) (n : ℕ) (s : Store)
      → reservation j (advance n s)
        ≡ (if is_past (clock s + n) (reservation_expires j s) then none else reservation j s)
  -- of a reservation that is there
  pub reservation_expires-expire_reservation :
      (k j : Key) (n : ℕ) (s : Store) (e : Entry)
      → reservation k s ≡ some e
      → reservation_expires j (expire_reservation k n s)
        ≡ (if k == j then some (clock s + n) else reservation_expires j s)
  pub clock-incr_balance : (k : Key) (a : ℤ) (s : Store) → clock (incr_balance k a s) ≡ clock s
  pub clock-set_transaction :
      (k : Key) (e : Entry) (s : Store) → clock (set_transaction k e s) ≡ clock s
  pub clock-expire_transaction :
      (k : Key) (n : ℕ) (s : Store) → clock (expire_transaction k n s) ≡ clock s
  pub clock-set_reservation :
      (k : Key) (e : Entry) (s : Store) → clock (set_reservation k e s) ≡ clock s
  pub clock-expire_reservation :
      (k : Key) (n : ℕ) (s : Store) → clock (expire_reservation k n s) ≡ clock s
  pub clock-delete_reservation : (k : Key) (s : Store) → clock (delete_reservation k s) ≡ clock s
  pub clock-advance : (n : ℕ) (s : Store) → clock (advance n s) ≡ clock s + n
