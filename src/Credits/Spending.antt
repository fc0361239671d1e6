-- ===== src/Credits/Spending.antt =====
-- shared/security/idempotency.py: what `deduct_credits` does, in one call and in two at once.
use rg_agent_engine.Base.{
  ◌≡◌, ◌∙◌, refl, ◌≢◌, ◌⊎◌, inl, inr, Key, true, false, none, some, arith, ap, Bool-cases,
  Option-cases,
}
use rg_agent_engine.Base.Int.{ℤ, pos, ◌+ℤ◌, ◌-ℤ◌, ◌≤ℤ◌, ◌<ℤ◌, ltb_ℤ, int_laws, pos_part, neg_part}
use rg_agent_engine.Credits.Store.{Entry, CreditStore}
use rg_agent_engine.Credits.Manager.{
  month, CreditError, duplicate_transaction, insufficient_credits, invalid_amount, is_some,
  deduct_script, record_transaction, settle_deduction, check_deduction, deduct_credits,
}

module _ (redis : CreditStore) where
  open redis use {Store, balance, incr_balance, transaction}

  -- The store after `amount` was taken from the user, under this transaction.
  pub record IsDeducted (user : Key) (amount : ℤ) (transaction_id : Key) (s s' : Store)
      : Type 0 where
    pub enough : amount ≤ℤ balance user s
    pub taken : balance user s' +ℤ amount ≡ balance user s
    pub recorded : is_some (transaction transaction_id s') ≡ true

  abbrev pub charged : Key → ℤ → Store → Store
  charged user amount s = incr_balance user (pos 0 -ℤ amount) s

  pub settle_refused :
      (user : Key) (amount : ℤ) (transaction_id : Key) (s : Store)
      → ltb_ℤ (balance user s) amount ≡ true
      → settle_deduction redis user amount transaction_id s
        ≡ ((some insufficient_credits, balance user s), s)
  unfolding settle_deduction deduct_script
  settle_refused user amount transaction_id s h = ground arith

  pub settle_taken :
      (user : Key) (amount : ℤ) (transaction_id : Key) (s : Store)
      → ltb_ℤ (balance user s) amount ≡ false
      → settle_deduction redis user amount transaction_id s ≡ (
        (none, balance user (charged user amount s)),
        record_transaction redis transaction_id user (pos 0 -ℤ amount) (charged user amount s),
      )
  unfolding settle_deduction deduct_script
  settle_taken user amount transaction_id s h = ground arith

  IsDeducted-charged :
      (user : Key) (amount : ℤ) (transaction_id : Key) (s : Store)
      → amount ≤ℤ balance user s
      → IsDeducted user amount transaction_id s
          (record_transaction redis transaction_id user (pos 0 -ℤ amount) (charged user amount s))
  unfolding record_transaction
  IsDeducted-charged user amount transaction_id s h =
      let e : Entry = record { user_id = user; amount = pos 0 -ℤ amount } in
      let s1 = charged user amount s in
      let s2 = redis.set_transaction transaction_id e s1 in
      let kept =
        redis.balance-expire_transaction transaction_id user month s2
        ∙ redis.balance-set_transaction transaction_id user e s1 in
      let less : balance user s1 ≡ balance user s +ℤ (pos 0 -ℤ amount) =
        ground (arith, redis.balance-incr_balance user user (pos 0 -ℤ amount) s) in
      record {
        enough = h;
        taken = rw (kept, less) (omega int_laws);
        recorded =
            ap is_some (redis.transaction-expire_transaction transaction_id transaction_id month s2)
            ∙ ground (arith, redis.transaction-set_transaction transaction_id transaction_id e s1);
      }

  settle_deduction_lem :
      (user : Key) (amount : ℤ) (transaction_id : Key) (s : Store)
      → let (r, s') = settle_deduction redis user amount transaction_id s in
        ((r.0 ≡ some insufficient_credits) × (s' ≡ s))
        ⊎ ((r.0 ≡ none) × IsDeducted user amount transaction_id s s')
  settle_deduction_lem user amount transaction_id s =
      elim (Bool-cases (ltb_ℤ (balance user s) amount)) [
        | inl less ↦ rw (settle_refused user amount transaction_id s less) (inl (refl, refl))
        | inr enough ↦
            rw (settle_taken user amount transaction_id s enough)
              (inr (refl, IsDeducted-charged user amount transaction_id s (ground arith)))
      ]

  check_passed :
      (amount : ℤ) (transaction_id : Key) (s : Store)
      → check_deduction redis amount transaction_id s ≡ none
      → (pos 0 <ℤ amount) × (is_some (transaction transaction_id s) ≡ false)
  unfolding check_deduction
  check_passed amount transaction_id s h = ground arith

  pub check_repeated :
      (amount : ℤ) (transaction_id : Key) (s : Store)
      → is_some (transaction transaction_id s) ≡ true
      → (error : CreditError) × (check_deduction redis amount transaction_id s ≡ some error)
  unfolding check_deduction
  check_repeated amount transaction_id s h = elim (Bool-cases (ltb_ℤ (pos 0) amount)) [
    | inl positive ↦ (duplicate_transaction, rw (positive, h) refl)
    | inr other ↦ (invalid_amount, rw other refl)
  ]

  pub deduct_refused :
      (user : Key) (amount : ℤ) (transaction_id : Key) (s : Store) (error : CreditError)
      → check_deduction redis amount transaction_id s ≡ some error
      → deduct_credits redis user amount transaction_id (some s)
        ≡ ((some error, balance user s), some s)
  unfolding deduct_credits
  deduct_refused user amount transaction_id s error e = rw (e, deduct_credits) refl

  pub deduct_passed :
      (user : Key) (amount : ℤ) (transaction_id : Key) (s : Store)
      → check_deduction redis amount transaction_id s ≡ none
      → deduct_credits redis user amount transaction_id (some s) ≡ (
        (settle_deduction redis user amount transaction_id s).0,
        some (settle_deduction redis user amount transaction_id s).1,
      )
  unfolding deduct_credits
  deduct_passed user amount transaction_id s e = rw (e, deduct_credits) refl

  -- A deduction succeeds only for a positive amount within the balance and a transaction that is not
  -- on record; it takes exactly the amount and records the transaction. Otherwise it returns an
  -- error, and the store stays as it was.
  pub deduct_credits_lem :
      (user : Key) (amount : ℤ) (transaction_id : Key) (s : Store)
      → let (r, c) = deduct_credits redis user amount transaction_id (some s) in
        ((r.0 ≢ none) × (c ≡ some s))
        ⊎ ((s' : Store) × (r.0 ≡ none)
            × (c ≡ some s')
            × (pos 0 <ℤ amount)
            × (is_some (transaction transaction_id s) ≡ false)
            × IsDeducted user amount transaction_id s s')
  deduct_credits_lem user amount transaction_id s =
      elim (Option-cases (check_deduction redis amount transaction_id s)) [
        | inr (error, e) ↦
            rw (deduct_refused user amount transaction_id s error e) (inl ((λ q. cc), refl))
        | inl e ↦
            let (positive, new) = check_passed amount transaction_id s e in
            rw (deduct_passed user amount transaction_id s e)
              (elim (settle_deduction_lem user amount transaction_id s) [
                | inl (error, same) ↦ inl ((λ q. cc), ground arith)
                | inr (ok, deducted) ↦ inr (_, ok, refl, positive, new, deducted)
              ])
      ]

  settles :
      (user : Key) (amount : ℤ) (transaction_id : Key) (s : Store)
      → amount ≤ℤ balance user s
      → let (r, s') = settle_deduction redis user amount transaction_id s in
        (r.0 ≡ none) × IsDeducted user amount transaction_id s s'
  settles user amount transaction_id s h =
      rw (settle_taken user amount transaction_id s (ground arith))
        (refl, IsDeducted-charged user amount transaction_id s h)

  -- Two calls of `deduct_credits` for one transaction, both of which have passed their checks before
  -- either runs its script: the balance covers both, and the amount is taken twice.
  pub deducts_twice :
      (user : Key) (amount : ℤ) (transaction_id : Key) (s : Store)
      → check_deduction redis amount transaction_id s ≡ none
      → amount +ℤ amount ≤ℤ balance user s
      → let (r, s') = settle_deduction redis user amount transaction_id s in
        let (r', s'') = settle_deduction redis user amount transaction_id s' in
        (r.0 ≡ none) × (r'.0 ≡ none) × (balance user s'' +ℤ amount +ℤ amount ≡ balance user s)
  deducts_twice user amount transaction_id s c h =
      let s' = (settle_deduction redis user amount transaction_id s).1 in
      let (positive, new) = check_passed amount transaction_id s c in
      let (ok, first) = settles user amount transaction_id s (omega (int_laws, h, positive)) in
      let left : amount ≤ℤ balance user s' =
        omega (int_laws, h, ap pos_part first.taken, ap neg_part first.taken) in
      let (ok', second) = settles user amount transaction_id s' left in
      (ok, ok', rw second.taken first.taken)
