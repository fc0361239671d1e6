-- ===== src/Credits/Reserving.antt =====
-- shared/security/idempotency.py: what becomes of a reservation.
use rg_agent_engine.Base.{
  ◌≡◌, ℕ, ap, refl, inl, inr, Key, Bool, true, false, ◌||◌, none, some, ◌==◌, if◌then◌else◌, arith,
  ◌∙◌, Bool-cases, ==_refl,
}
use rg_agent_engine.Base.Int.{ℤ, pos, ◌+ℤ◌, ◌-ℤ◌, ltb_ℤ, int_laws}
use rg_agent_engine.Credits.Store.{Entry, CreditStore}
use rg_agent_engine.Credits.Manager.{
  month, CreditError, reservation_exists, insufficient_credits, is_some, Connection, get_balance,
  deduct_script, record_transaction, reserve_credits, confirm_reservation, cancel_reservation,
}

module _ (redis : CreditStore) where
  open redis use {
    Store, balance, incr_balance, transaction, reservation, set_reservation, expire_reservation,
    delete_reservation,
  }

  abbrev entry : Key → ℤ → Entry
  entry user amount = record { user_id = user; amount = amount }

  abbrev reserved : Key → ℤ → Key → ℕ → Store → Store
  reserved user amount id ttl s =
      expire_reservation id ttl
        (set_reservation id (entry user amount) (incr_balance user (pos 0 -ℤ amount) s))

  reserve_refused :
      (user : Key) (amount : ℤ) (id : Key) (ttl : ℕ) (s : Store)
      → (is_some (reservation id s) || ltb_ℤ (balance user s) amount) ≡ true
      → (error : CreditError) × (reserve_credits redis user amount id ttl (some s)
          ≡ (some error, some s))
  unfolding reserve_credits deduct_script
  reserve_refused user amount id ttl s h = elim (Bool-cases (is_some (reservation id s))) [
    | inl there ↦ (reservation_exists, ground arith)
    | inr new ↦ (insufficient_credits, ground arith)
  ]

  reserve_taken :
      (user : Key) (amount : ℤ) (id : Key) (ttl : ℕ) (s : Store)
      → (is_some (reservation id s) || ltb_ℤ (balance user s) amount) ≡ false
      → reserve_credits redis user amount id ttl (some s)
        ≡ (none, some (reserved user amount id ttl s))
  unfolding reserve_credits deduct_script
  reserve_taken user amount id ttl s h = ground arith

  cancel_missing :
      (id : Key) (s : Store)
      → reservation id s ≡ none
      → cancel_reservation redis id (some s) ≡ (false, some s)
  unfolding cancel_reservation
  cancel_missing id s h = ground arith

  confirm_found :
      (id transaction_id : Key) (s : Store) (e : Entry)
      → reservation id s ≡ some e
      → confirm_reservation redis id transaction_id (some s) ≡ (
        true,
        some (
            delete_reservation id
              (record_transaction redis transaction_id e.user_id (pos 0 -ℤ e.amount) s)),
      )
  unfolding confirm_reservation
  confirm_found id transaction_id s e h = ground arith

  holds_entry :
      (user : Key) (amount : ℤ) (id : Key) (ttl : ℕ) (s : Store)
      → reservation id (reserved user amount id ttl s) ≡ some (entry user amount)
  holds_entry user amount id ttl s =
      let s1 = incr_balance user (pos 0 -ℤ amount) s in
      redis.reservation-expire_reservation id id ttl (set_reservation id (entry user amount) s1)
      ∙ ground (arith, redis.reservation-set_reservation id id (entry user amount) s1)

  balance-reserved :
      (user j : Key) (amount : ℤ) (id : Key) (ttl : ℕ) (s : Store)
      → balance j (reserved user amount id ttl s)
        ≡ (if user == j then balance j s +ℤ (pos 0 -ℤ amount) else balance j s)
  balance-reserved user j amount id ttl s =
      let s1 = incr_balance user (pos 0 -ℤ amount) s in
      redis.balance-expire_reservation id j ttl (set_reservation id (entry user amount) s1)
      ∙ redis.balance-set_reservation id j (entry user amount) s1
      ∙ redis.balance-incr_balance user j (pos 0 -ℤ amount) s

  refunded : (x a : ℤ) → x +ℤ (pos 0 -ℤ a) +ℤ a ≡ x
  refunded x a = omega int_laws

  abbrev pub is_recorded : Key → Connection redis → Bool
  is_recorded transaction_id none = false
  is_recorded transaction_id (some s) = is_some (transaction transaction_id s)

  -- After a reservation is deleted, it cannot be cancelled.
  cancel-deleted :
      (id : Key) (s : Store)
      → cancel_reservation redis id (some (delete_reservation id s))
        ≡ (false, some (delete_reservation id s))
  cancel-deleted id s =
      cancel_missing id (delete_reservation id s)
        (ground (arith, redis.reservation-delete_reservation id id s))

  confirmed : Key → Key → Key → ℤ → Store → Store
  confirmed id transaction_id user amount s =
      delete_reservation id (record_transaction redis transaction_id user (pos 0 -ℤ amount) s)

  confirmed_lem :
      (id transaction_id user : Key) (amount : ℤ) (s : Store)
      → let s' = confirmed id transaction_id user amount s in
        (balance user s' ≡ balance user s) × (is_some (transaction transaction_id s') ≡ true)
  unfolding confirmed record_transaction
  confirmed_lem id transaction_id user amount s =
      let e = entry user (pos 0 -ℤ amount) in
      let s1 = redis.set_transaction transaction_id e s in
      (
        redis.balance-delete_reservation id user _
            ∙ redis.balance-expire_transaction transaction_id user month s1
            ∙ redis.balance-set_transaction transaction_id user e s,
        ap is_some (
              redis.transaction-delete_reservation id transaction_id _
              ∙ redis.transaction-expire_transaction transaction_id transaction_id month s1)
            ∙ ground (arith, redis.transaction-set_transaction transaction_id transaction_id e s),
      )

  -- A reservation that succeeds and is confirmed leaves the user with the amount less, with the
  -- transaction on record, and cannot be cancelled any more.
  pub confirm_reservation-reserve_credits :
      (user : Key) (amount : ℤ) (id transaction_id : Key) (ttl : ℕ) (s : Store)
      → (reserve_credits redis user amount id ttl (some s)).0 ≡ none
      → let (ok, c) =
          confirm_reservation redis id transaction_id
            (reserve_credits redis user amount id ttl (some s)).1 in
        (ok ≡ true)
        × (get_balance redis user c +ℤ amount ≡ balance user s)
        × (is_recorded transaction_id c ≡ true)
        × (cancel_reservation redis id c ≡ (false, c))
  unfolding confirmed
  confirm_reservation-reserve_credits user amount id transaction_id ttl s h =
      elim (Bool-cases (is_some (reservation id s) || ltb_ℤ (balance user s) amount)) [
        | inl refused ↦ let (error, e) = reserve_refused user amount id ttl s refused in cc
        | inr fine ↦
            let (kept, on_record) =
              confirmed_lem id transaction_id user amount (reserved user amount id ttl s) in
            rw
              (
                reserve_taken user amount id ttl s fine,
                confirm_found id transaction_id (reserved user amount id ttl s) (entry user amount)
                    (holds_entry user amount id ttl s),
              )
              (
                refl,
                rw (kept, balance-reserved user user amount id ttl s, ==_refl user)
                    (refunded (balance user s) amount),
                on_record,
                cancel-deleted id _,
              )
      ]
