-- ===== src/Credits/Sections.antt =====
-- shared/security/idempotency.py: the commands of many calls, in any order.
use rg_agent_engine.Base.{
  ℕ, ◌≡◌, Key, Bool, true, false, not, ◌&&◌, List, [], ◌∷◌, ◌==◌, arith, subst, Bool-cases, inl,
  inr,
}
use rg_agent_engine.Base.Int.{ℤ, pos, ◌-ℤ◌, ◌≤ℤ◌, ltb_ℤ, int_laws}
use rg_agent_engine.Credits.Store.{Entry, CreditStore}
use rg_agent_engine.Credits.Manager.{deduct_script}

-- A command of one of the methods: the increment of `add_credits`, the script of a deduction or of a
-- reservation, the refund of a cancelled reservation, and what is written, given a time to
-- expire and deleted; and seconds that pass.
pub data Command : Type 0 where
  adds : Key → ℤ → Command
  deducts : Key → ℤ → Command
  refunds : Key → ℤ → Command
  records : Key → Entry → Command
  reserves : Key → Entry → Command
  releases : Key → Command
  keeps_record : Key → ℕ → Command
  keeps_reserve : Key → ℕ → Command
  waits : ℕ → Command

-- What `add_credits` checks of its amount, and what a refund has where no reservation was made for a
-- negative amount.
abbrev pub is_fair : Command → Bool
is_fair (adds user amount) = ltb_ℤ (pos 0) amount
is_fair (refunds user amount) = not (ltb_ℤ amount (pos 0))
is_fair _ = true

abbrev pub all_fair : List Command → Bool
all_fair [] = true
all_fair (c ∷ commands) = is_fair c && all_fair commands

module _ (redis : CreditStore) where
  open redis use {
    Store, balance, incr_balance, set_transaction, expire_transaction, set_reservation,
    expire_reservation, delete_reservation, advance,
  }

  unfoldable pub perform : Command → Store → Store
  perform (adds user amount) s = incr_balance user amount s
  perform (deducts user amount) s = (deduct_script redis user amount s).1
  perform (refunds user amount) s = incr_balance user amount s
  perform (records id e) s = set_transaction id e s
  perform (keeps_record id n) s = expire_transaction id n s
  perform (keeps_reserve id n) s = expire_reservation id n s
  perform (waits n) s = advance n s
  perform (reserves id e) s = set_reservation id e s
  perform (releases id) s = delete_reservation id s

  unfoldable pub perform_all : List Command → Store → Store
  perform_all [] s = s
  perform_all (c ∷ commands) s = perform_all commands (perform c s)

  incr_balance-nonneg :
      (user k : Key) (amount : ℤ) (s : Store)
      → pos 0 ≤ℤ balance user s
      → pos 0 ≤ℤ amount
      → pos 0 ≤ℤ balance user (incr_balance k amount s)
  incr_balance-nonneg user k amount s h a =
      rw (redis.balance-incr_balance k user amount s) (elim (Bool-cases (k == user)) [
        | inl same ↦ rw same (omega (int_laws, h, a))
        | inr other ↦ rw other h
      ])

  script_refused :
      (k : Key) (amount : ℤ) (s : Store)
      → ltb_ℤ (balance k s) amount ≡ true
      → (deduct_script redis k amount s).1 ≡ s
  unfolding deduct_script
  script_refused k amount s h = ground arith

  script_taken :
      (k : Key) (amount : ℤ) (s : Store)
      → ltb_ℤ (balance k s) amount ≡ false
      → (deduct_script redis k amount s).1 ≡ incr_balance k (pos 0 -ℤ amount) s
  unfolding deduct_script
  script_taken k amount s h = ground arith

  deduct_script-nonneg :
      (user k : Key) (amount : ℤ) (s : Store)
      → pos 0 ≤ℤ balance user s
      → pos 0 ≤ℤ balance user (deduct_script redis k amount s).1
  deduct_script-nonneg user k amount s h = elim (Bool-cases (ltb_ℤ (balance k s) amount)) [
    | inl less ↦ rw (script_refused k amount s less) h
    | inr enough ↦
        let covered : amount ≤ℤ balance k s = ground arith in
        rw (script_taken k amount s enough, redis.balance-incr_balance k user (pos 0 -ℤ amount) s)
          (elim (Bool-cases (k == user)) [
            | inl same ↦
                let e : k ≡ user = ground arith in
                let covered' = subst (λ (x : Key). amount ≤ℤ balance x s) e covered in
                rw same (omega (int_laws, h, covered'))
            | inr other ↦ rw other h
          ])
  ]

  perform-nonneg :
      (user : Key) (c : Command) (s : Store)
      → is_fair c ≡ true
      → pos 0 ≤ℤ balance user s
      → pos 0 ≤ℤ balance user (perform c s)
  unfolding perform
  perform-nonneg user (adds k amount) s f h = incr_balance-nonneg user k amount s h (ground arith)
  perform-nonneg user (deducts k amount) s f h = deduct_script-nonneg user k amount s h
  perform-nonneg user (refunds k amount) s f h =
      incr_balance-nonneg user k amount s h (ground arith)
  perform-nonneg user (records id e) s f h = rw (redis.balance-set_transaction id user e s) h
  perform-nonneg user (reserves id e) s f h = rw (redis.balance-set_reservation id user e s) h
  perform-nonneg user (releases id) s f h = rw (redis.balance-delete_reservation id user s) h
  perform-nonneg user (keeps_record id n) s f h =
      rw (redis.balance-expire_transaction id user n s) h
  perform-nonneg user (keeps_reserve id n) s f h =
      rw (redis.balance-expire_reservation id user n s) h
  perform-nonneg user (waits n) s f h = rw (redis.balance-advance user n s) h

  -- However the commands of any number of calls interleave, a balance that is not negative stays so,
  -- where credits are added by positive amounts and no refund is negative.
  pub perform_all-nonneg :
      (user : Key) (commands : List Command) (s : Store)
      → all_fair commands ≡ true
      → pos 0 ≤ℤ balance user s
      → pos 0 ≤ℤ balance user (perform_all commands s)
  unfolding perform_all
  perform_all-nonneg user [] s f h = h
  perform_all-nonneg user (c ∷ commands) s f h =
      perform_all-nonneg user commands (perform c s) (ground arith)
        (perform-nonneg user c s (ground arith) h)
