-- ===== src/Credits/Once.antt =====
-- shared/security/idempotency.py: a transaction is deducted once, whatever is called in between.
use rg_agent_engine.Base.{
  ℕ, ◌<◌, ◌≡◌, ◌≢◌, refl, inl, inr, Key, not, none, some, List, [], ◌∷◌, arith, Bool-cases,
  Option-cases,
}
use rg_agent_engine.Base.Int.{ℤ, pos, ◌-ℤ◌, ltb_ℤ}
use rg_agent_engine.Credits.Store.{CreditStore}
use rg_agent_engine.Credits.Manager.{
  is_some, month, Connection, deduct_script, add_credits, settle_deduction, check_deduction,
  deduct_credits, reserve_credits, confirm_reservation, cancel_reservation,
}
use rg_agent_engine.Credits.Lasting.{
  Call, adds, deducts, reserves, confirms, cancels, waits, duration, run_calls, IsLasting,
  incr_balance-IsLasting, set_reservation-IsLasting, expire_reservation-IsLasting,
  delete_reservation-IsLasting, record_transaction-IsLasting, new_transaction-IsLasting,
  advance-IsLasting,
}
use rg_agent_engine.Credits.Spending.{
  charged, settle_refused, settle_taken, deduct_passed, check_repeated, deduct_refused,
}

module _ (redis : CreditStore) where
  open redis use {
    Store, balance, incr_balance, transaction, set_reservation, expire_reservation,
    delete_reservation, reservation,
  }

  -- The store of a connection keeps the transaction.
  abbrev Lasts : Key → ℕ → Connection redis → Type 0
  Lasts id n none = ⊥
  Lasts id n (some s) = IsLasting redis id n s

  module _ (id : Key) (n : ℕ) (short : n < month) where
    settle-IsLasting :
        (user : Key) (amount : ℤ) (k : Key) (s : Store)
        → IsLasting redis id n s
        → IsLasting redis id n (settle_deduction redis user amount k s).1
    settle-IsLasting user amount k s h = elim (Bool-cases (ltb_ℤ (balance user s) amount)) [
      | inl less ↦ rw (settle_refused redis user amount k s less) h
      | inr enough ↦ rw (settle_taken redis user amount k s enough) (
          record_transaction-IsLasting redis id n k user (pos 0 -ℤ amount)
            (charged redis user amount s) short
            (incr_balance-IsLasting redis id n user (pos 0 -ℤ amount) s h))
    ]

    deduct_credits-Lasts :
        (user : Key) (amount : ℤ) (k : Key) (s : Store)
        → IsLasting redis id n s
        → Lasts id n (deduct_credits redis user amount k (some s)).1
    deduct_credits-Lasts user amount k s h =
        elim (Option-cases (check_deduction redis amount k s)) [
          | inl e ↦ rw (deduct_passed redis user amount k s e) (settle-IsLasting user amount k s h)
          | inr (error, e) ↦ rw (deduct_refused redis user amount k s error e) h
        ]

    add_credits-Lasts :
        (user : Key) (amount : ℤ) (k : Key) (s : Store)
        → IsLasting redis id n s
        → Lasts id n (add_credits redis user amount k (some s)).1
    unfolding add_credits
    add_credits-Lasts user amount k s h = elim (Bool-cases (not (ltb_ℤ (pos 0) amount))) [
      | inl bad ↦ rw (bad, add_credits) h
      | inr good ↦ elim (Bool-cases (is_some (transaction k s))) [
        | inl old ↦ rw (good, old, add_credits) h
        | inr new ↦
            rw (good, new, add_credits)
              (record_transaction-IsLasting redis id n k user amount (incr_balance user amount s)
                short (incr_balance-IsLasting redis id n user amount s h))
      ]
    ]

    reserve_credits-Lasts :
        (user : Key) (amount : ℤ) (k : Key) (ttl : ℕ) (s : Store)
        → IsLasting redis id n s
        → Lasts id n (reserve_credits redis user amount k ttl (some s)).1
    unfolding reserve_credits deduct_script
    reserve_credits-Lasts user amount k ttl s h = elim (Bool-cases (is_some (reservation k s))) [
      | inl old ↦ rw (old, reserve_credits) h
      | inr new ↦ elim (Bool-cases (ltb_ℤ (balance user s) amount)) [
        | inl less ↦ rw (new, less, reserve_credits) h
        | inr enough ↦
            rw (new, enough, reserve_credits)
              (expire_reservation-IsLasting redis id n k ttl _ (
                set_reservation-IsLasting redis id n k _ _
                  (incr_balance-IsLasting redis id n user (pos 0 -ℤ amount) s h)))
      ]
    ]

    confirm_reservation-Lasts :
        (k transaction_id : Key) (s : Store)
        → IsLasting redis id n s
        → Lasts id n (confirm_reservation redis k transaction_id (some s)).1
    unfolding confirm_reservation
    confirm_reservation-Lasts k transaction_id s h = elim (Option-cases (reservation k s)) [
      | inl e ↦ rw (e, confirm_reservation) h
      | inr (e, found) ↦
          rw (found, confirm_reservation)
            (delete_reservation-IsLasting redis id n k _ (
              record_transaction-IsLasting redis id n transaction_id e.user_id (pos 0 -ℤ e.amount) s
                short h))
    ]

    cancel_reservation-Lasts :
        (k : Key) (s : Store)
        → IsLasting redis id n s
        → Lasts id n (cancel_reservation redis k (some s)).1
    unfolding cancel_reservation
    cancel_reservation-Lasts k s h = elim (Option-cases (reservation k s)) [
      | inl e ↦ rw (e, cancel_reservation) h
      | inr (e, found) ↦
          rw (found, cancel_reservation)
            (delete_reservation-IsLasting redis id n k _
              (incr_balance-IsLasting redis id n e.user_id e.amount s h))
    ]

  run_calls-Lasts :
      (id : Key) (calls : List Call) (c : Connection redis)
      → duration calls < month
      → Lasts id (duration calls) c
      → Lasts id 0 (run_calls redis calls c)
  unfolding run_calls
  run_calls-Lasts id [] c p h = h
  run_calls-Lasts id (call ∷ calls) none p h = absurd h
  run_calls-Lasts id (adds user amount k ∷ calls) (some s) p h =
      run_calls-Lasts id calls _ p (add_credits-Lasts id (duration calls) p user amount k s h)
  run_calls-Lasts id (deducts user amount k ∷ calls) (some s) p h =
      run_calls-Lasts id calls _ p (deduct_credits-Lasts id (duration calls) p user amount k s h)
  run_calls-Lasts id (reserves user amount k ttl ∷ calls) (some s) p h =
      run_calls-Lasts id calls _ p
        (reserve_credits-Lasts id (duration calls) p user amount k ttl s h)
  run_calls-Lasts id (confirms k transaction_id ∷ calls) (some s) p h =
      run_calls-Lasts id calls _ p
        (confirm_reservation-Lasts id (duration calls) p k transaction_id s h)
  run_calls-Lasts id (cancels k ∷ calls) (some s) p h =
      run_calls-Lasts id calls _ p (cancel_reservation-Lasts id (duration calls) p k s h)
  run_calls-Lasts id (waits m ∷ calls) (some s) p h =
      run_calls-Lasts id calls _ (omega (arith, p))
        (advance-IsLasting redis id m (duration calls) s h)

  deducted-Lasts :
      (user : Key) (amount : ℤ) (id : Key) (n : ℕ) (s : Store)
      → n < month
      → (deduct_credits redis user amount id (some s)).0.0 ≡ none
      → Lasts id n (deduct_credits redis user amount id (some s)).1
  deducted-Lasts user amount id n s p h = elim (Option-cases (check_deduction redis amount id s)) [
    | inr (error, e) ↦ cc (rw (deduct_refused redis user amount id s error e) at h)
    | inl e ↦ elim (Bool-cases (ltb_ℤ (balance user s) amount)) [
      | inl less ↦ cc (
          rw (deduct_passed redis user amount id s e, settle_refused redis user amount id s less) at
            h)
      | inr enough ↦
          rw (deduct_passed redis user amount id s e, settle_taken redis user amount id s enough)
            (new_transaction-IsLasting redis id n user (pos 0 -ℤ amount)
              (charged redis user amount s) p)
    ]
  ]

  refused_again :
      (again : Key) (more : ℤ) (id : Key) (c : Connection redis)
      → Lasts id 0 c
      → let (r, c') = deduct_credits redis again more id c in (r.0 ≢ none) × (c' ≡ c)
  refused_again again more id none h = absurd h
  refused_again again more id (some s) h =
      let (error, e) = check_repeated redis more id s h.recorded in
      rw (deduct_refused redis again more id s error e) ((λ q. cc), refl)

  -- Once a deduction has succeeded, a call with the same transaction, for whatever user and amount,
  -- returns an error and leaves the store as it is, whatever whole calls come in between and
  -- however they end, for as long as less than the thirty days pass after which the transaction is forgotten.
  pub deducts_once :
      (user again : Key) (amount more : ℤ) (transaction_id : Key) (calls : List Call) (s : Store)
      → (deduct_credits redis user amount transaction_id (some s)).0.0 ≡ none
      → duration calls < month
      → let c =
          run_calls redis calls (deduct_credits redis user amount transaction_id (some s)).1 in
        let (r, c') = deduct_credits redis again more transaction_id c in (r.0 ≢ none) × (c' ≡ c)
  deducts_once user again amount more transaction_id calls s h p =
      refused_again again more transaction_id _ (
        run_calls-Lasts transaction_id calls _ p
          (deducted-Lasts user amount transaction_id (duration calls) s p h))
