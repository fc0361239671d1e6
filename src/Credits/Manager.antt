-- ===== src/Credits/Manager.antt =====
-- shared/security/idempotency.py: the methods of `AtomicCreditManager`, as the sections between
-- their awaits and as whole calls. A manager that is not connected has no store.
use rg_agent_engine.Base.{ℕ, Key, Bool, true, false, not, Option, none, some, if◌then◌else◌}
use rg_agent_engine.Base.Int.{ℤ, pos, ◌-ℤ◌, ltb_ℤ}
use rg_agent_engine.Credits.Store.{CreditStore}

-- The error messages.
pub data CreditError : Type 0 where
  not_connected invalid_amount duplicate_transaction insufficient_credits reservation_exists :
      CreditError

abbrev pub is_some {ℓ} : {A : Type ℓ} → Option A → Bool
is_some none = false
is_some (some a) = true

-- `86400 * 30`: thirty days
abbrev pub month : ℕ
month = 2592000

module _ (redis : CreditStore) where
  open redis use {
    Store, balance, incr_balance, transaction, set_transaction, expire_transaction, reservation,
    set_reservation, expire_reservation, delete_reservation,
  }

  -- `self._redis`
  abbrev pub Connection : Type 0
  Connection = Option Store

  -- `get_balance`
  abbrev pub get_balance : Key → Connection → ℤ
  get_balance user none = pos 0
  get_balance user (some s) = balance user s

  -- The Lua script of `deduct_credits` and of `reserve_credits`: whether the balance was enough.
  unfoldable pub deduct_script : Key → ℤ → Store → Bool × Store
  deduct_script user amount s =
      if ltb_ℤ (balance user s) amount
      then (false, s)
      else (true, incr_balance user (pos 0 -ℤ amount) s)

  -- How `add_credits`, `deduct_credits` and `confirm_reservation` record a transaction. Redis commands
  -- of other calls can come before it.
  unfoldable pub record_transaction : Key → Key → ℤ → Store → Store
  record_transaction transaction_id user amount s =
      expire_transaction transaction_id month
        (set_transaction transaction_id (record { user_id = user; amount = amount }) s)

  -- `add_credits`: whether it succeeded, and the balance
  unfoldable pub add_credits : Key → ℤ → Key → Connection → (Bool × ℤ) × Connection
  add_credits user amount transaction_id none = ((false, pos 0), none)
  add_credits user amount transaction_id (some s) =
      if not (ltb_ℤ (pos 0) amount)
      then ((false, balance user s), some s)
      else if is_some (transaction transaction_id s)
      then ((false, balance user s), some s)
      else let s' = incr_balance user amount s in
        ((true, balance user s'), some (record_transaction transaction_id user amount s'))

  -- What `deduct_credits` returns: no error where it succeeded, and the balance.
  abbrev pub Deducted : Type 0
  Deducted = Option CreditError × ℤ

  -- `deduct_credits` past its checks: the script, and the record of what was deducted.
  unfoldable pub settle_deduction : Key → ℤ → Key → Store → Deducted × Store
  settle_deduction user amount transaction_id s =
      let (success, s') = deduct_script user amount s in
      if success
      then ((none, balance user s'), record_transaction transaction_id user (pos 0 -ℤ amount) s')
      else ((some insufficient_credits, balance user s'), s')

  -- The first checks of `deduct_credits`: the error, if there is one.
  unfoldable pub check_deduction : ℤ → Key → Store → Option CreditError
  check_deduction amount transaction_id s =
      if not (ltb_ℤ (pos 0) amount)
      then some invalid_amount
      else if is_some (transaction transaction_id s)
      then some duplicate_transaction
      else none

  -- `deduct_credits`
  unfoldable pub deduct_credits : Key → ℤ → Key → Connection → Deducted × Connection
  deduct_credits user amount transaction_id none = ((some not_connected, pos 0), none)
  deduct_credits user amount transaction_id (some s) =
      elim (check_deduction amount transaction_id s) [
        | some error ↦ ((some error, balance user s), some s)
        | none ↦ let (r, s') = settle_deduction user amount transaction_id s in (r, some s')
      ]

  -- `reserve_credits`: the error, if there is one. The amount is not checked.
  unfoldable pub reserve_credits : Key → ℤ → Key → ℕ → Connection → Option CreditError × Connection
  reserve_credits user amount reservation_id ttl none = (some not_connected, none)
  reserve_credits user amount reservation_id ttl (some s) =
      if is_some (reservation reservation_id s)
      then (some reservation_exists, some s)
      else let (success, s') = deduct_script user amount s in
        if success
        then (
          none,
          some (
              expire_reservation reservation_id ttl
                (set_reservation reservation_id (record { user_id = user; amount = amount }) s')),
        )
        else (some insufficient_credits, some s')

  -- `confirm_reservation`
  unfoldable pub confirm_reservation : Key → Key → Connection → Bool × Connection
  confirm_reservation reservation_id transaction_id none = (false, none)
  confirm_reservation reservation_id transaction_id (some s) = elim (reservation reservation_id s) [
    | none ↦ (false, some s)
    | some e ↦ (
      true,
      some (
          delete_reservation reservation_id
            (record_transaction transaction_id e.user_id (pos 0 -ℤ e.amount) s)),
    )
  ]

  -- `cancel_reservation`
  unfoldable pub cancel_reservation : Key → Connection → Bool × Connection
  cancel_reservation reservation_id none = (false, none)
  cancel_reservation reservation_id (some s) = elim (reservation reservation_id s) [
    | none ↦ (false, some s)
    | some e ↦ (true, some (delete_reservation reservation_id (incr_balance e.user_id e.amount s)))
  ]
