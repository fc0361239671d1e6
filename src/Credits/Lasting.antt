-- ===== src/Credits/Lasting.antt =====
-- shared/security/idempotency.py: how long a transaction keeps its id from a second deduction.
use rg_agent_engine.Base.{
  ℕ, ◌+◌, ◌<◌, ◌≡◌, refl, inl, inr, ap, ◌∙◌, Key, true, false, none, some, List, [], ◌∷◌, ◌==◌, leb,
  arith, Bool-cases, ==_refl,
}
use rg_agent_engine.Base.Int.{ℤ}
use rg_agent_engine.Credits.Store.{Entry, CreditStore}
use rg_agent_engine.Credits.Manager.{
  is_some, month, Connection, record_transaction, add_credits, deduct_credits, reserve_credits,
  confirm_reservation, cancel_reservation,
}

-- A call of a method, and seconds that pass between calls.
pub data Call : Type 0 where
  adds : Key → ℤ → Key → Call
  deducts : Key → ℤ → Key → Call
  reserves : Key → ℤ → Key → ℕ → Call
  confirms : Key → Key → Call
  cancels : Key → Call
  waits : ℕ → Call

-- The seconds that pass in all.
abbrev pub duration : List Call → ℕ
duration [] = 0
duration (waits n ∷ calls) = n + duration calls
duration (adds user amount id ∷ calls) = duration calls
duration (deducts user amount id ∷ calls) = duration calls
duration (reserves user amount id ttl ∷ calls) = duration calls
duration (confirms id transaction_id ∷ calls) = duration calls
duration (cancels id ∷ calls) = duration calls

module _ (redis : CreditStore) where
  open redis use {
    Store, balance, incr_balance, transaction, set_transaction, transaction_expires,
    expire_transaction, reservation, set_reservation, expire_reservation, delete_reservation, clock,
    advance,
  }

  abbrev pub pass : ℕ → Connection redis → Connection redis
  pass n none = none
  pass n (some s) = some (advance n s)

  unfoldable pub run_calls : List Call → Connection redis → Connection redis
  run_calls [] c = c
  run_calls (adds user amount id ∷ calls) c = run_calls calls (add_credits redis user amount id c).1
  run_calls (deducts user amount id ∷ calls) c =
      run_calls calls (deduct_credits redis user amount id c).1
  run_calls (reserves user amount id ttl ∷ calls) c =
      run_calls calls (reserve_credits redis user amount id ttl c).1
  run_calls (confirms id transaction_id ∷ calls) c =
      run_calls calls (confirm_reservation redis id transaction_id c).1
  run_calls (cancels id ∷ calls) c = run_calls calls (cancel_reservation redis id c).1
  run_calls (waits n ∷ calls) c = run_calls calls (pass n c)

  -- The transaction is on record and stays so for more than these seconds.
  pub record IsLasting (id : Key) (n : ℕ) (s : Store) : Type 0 where
    pub recorded : is_some (transaction id s) ≡ true
    pub until : ℕ
    pub expires : transaction_expires id s ≡ some until
    pub later : clock s + n < until

  same_transactions :
      (id : Key) (n : ℕ) (s s' : Store)
      → transaction id s' ≡ transaction id s
      → transaction_expires id s' ≡ transaction_expires id s
      → clock s' ≡ clock s
      → IsLasting id n s
      → IsLasting id n s'
  same_transactions id n s s' t e c h = record {
    recorded = ap is_some t ∙ h.recorded;
    until = h.until;
    expires = e ∙ h.expires;
    later = rw c (h.later);
  }

  pub incr_balance-IsLasting :
      (id : Key) (n : ℕ) (k : Key) (a : ℤ) (s : Store)
      → IsLasting id n s
      → IsLasting id n (incr_balance k a s)
  incr_balance-IsLasting id n k a s h =
      same_transactions id n s (incr_balance k a s) (redis.transaction-incr_balance k id a s)
        (redis.transaction_expires-incr_balance k id a s) (redis.clock-incr_balance k a s) h

  pub set_reservation-IsLasting :
      (id : Key) (n : ℕ) (k : Key) (e : Entry) (s : Store)
      → IsLasting id n s
      → IsLasting id n (set_reservation k e s)
  set_reservation-IsLasting id n k e s h =
      same_transactions id n s (set_reservation k e s) (redis.transaction-set_reservation k id e s)
        (redis.transaction_expires-set_reservation k id e s) (redis.clock-set_reservation k e s) h

  pub expire_reservation-IsLasting :
      (id : Key) (n : ℕ) (k : Key) (m : ℕ) (s : Store)
      → IsLasting id n s
      → IsLasting id n (expire_reservation k m s)
  expire_reservation-IsLasting id n k m s h =
      same_transactions id n s (expire_reservation k m s)
        (redis.transaction-expire_reservation k id m s)
        (redis.transaction_expires-expire_reservation k id m s)
        (redis.clock-expire_reservation k m s) h

  pub delete_reservation-IsLasting :
      (id : Key) (n : ℕ) (k : Key) (s : Store)
      → IsLasting id n s
      → IsLasting id n (delete_reservation k s)
  delete_reservation-IsLasting id n k s h =
      same_transactions id n s (delete_reservation k s)
        (redis.transaction-delete_reservation k id s)
        (redis.transaction_expires-delete_reservation k id s) (redis.clock-delete_reservation k s) h

  pub record_transaction-IsLasting :
      (id : Key) (n : ℕ) (k user : Key) (a : ℤ) (s : Store)
      → n < month
      → IsLasting id n s
      → IsLasting id n (record_transaction redis k user a s)
  unfolding record_transaction
  record_transaction-IsLasting id n k user a s p h =
      let e : Entry = record { user_id = user; amount = a } in
      let s1 = set_transaction k e s in
      let own : transaction k s1 ≡ some e =
        redis.transaction-set_transaction k k e s ∙ rw (==_refl k) refl in
      let there =
        redis.transaction-expire_transaction k id month s1
        ∙ redis.transaction-set_transaction k id e s in
      let until = redis.transaction_expires-expire_transaction k id month s1 e own in
      let old = redis.transaction_expires-set_transaction k id e s in
      let time = redis.clock-expire_transaction k month s1 ∙ redis.clock-set_transaction k e s in
      elim (Bool-cases (k == id)) [
        | inl same ↦ record {
          recorded = rw (there, same) refl;
          until = clock s1 + month;
          expires = until ∙ rw same refl;
          later = rw (time, redis.clock-set_transaction k e s) (omega (arith, p));
        }
        | inr other ↦ record {
          recorded = rw (there, other) (h.recorded);
          until = h.until;
          expires = until ∙ rw other old ∙ h.expires;
          later = rw time (h.later);
        }
      ]

  pub new_transaction-IsLasting :
      (id : Key) (n : ℕ) (user : Key) (a : ℤ) (s : Store)
      → n < month
      → IsLasting id n (record_transaction redis id user a s)
  unfolding record_transaction
  new_transaction-IsLasting id n user a s p =
      let e : Entry = record { user_id = user; amount = a } in
      let s1 = set_transaction id e s in
      let own : transaction id s1 ≡ some e =
        redis.transaction-set_transaction id id e s ∙ rw (==_refl id) refl in
      record {
        recorded = ap is_some (redis.transaction-expire_transaction id id month s1 ∙ own);
        until = clock s1 + month;
        expires =
            redis.transaction_expires-expire_transaction id id month s1 e own
            ∙ rw (==_refl id) refl;
        later = rw (redis.clock-expire_transaction id month s1) (omega (arith, p));
      }

  pub advance-IsLasting :
      (id : Key) (m n : ℕ) (s : Store) → IsLasting id (m + n) s → IsLasting id n (advance m s)
  advance-IsLasting id m n s h =
      let h_later = h.later in
      let still : leb h.until (clock s + m) ≡ false = ground arith in
      record {
        recorded =
            ap is_some (redis.transaction-advance id m s ∙ rw (h.expires, still) refl) ∙ h.recorded;
        until = h.until;
        expires = redis.transaction_expires-advance id m s ∙ rw (h.expires, still) refl;
        later = rw (redis.clock-advance m s) (omega (arith, h_later));
      }
