-- ===== src/Credits/Tests.antt =====
-- shared/security/idempotency.py: credits in a store of three tables.
use rg_agent_engine.Base.{
  ℕ, ◌+◌, ◌∙◌, ap, is_past, ◌≡◌, refl, ◌≢◌, inl, inr, Key, Option, none, some, List, [], ◌∷◌, ◌==◌,
  if◌then◌else◌, arith, Bool-cases,
}
use rg_agent_engine.Base.Int.{ℤ, pos, ◌+ℤ◌, ◌-ℤ◌, ◌≤ℤ◌}
use rg_agent_engine.Base.Expiring.{
  Item, place, ap_if, place_same, item_of, until_of, expire_at, drop_item, expire_found, item_kept,
}
use rg_agent_engine.Credits.Store.{Entry, CreditStore}
use rg_agent_engine.Credits.Manager.{
  deduct_script, settle_deduction, check_deduction, deduct_credits, record_transaction,
}
use rg_agent_engine.Credits.Spending.{deducts_twice}
use rg_agent_engine.Credits.Lasting.{Call, waits, reserves, confirms, run_calls}
use rg_agent_engine.Credits.Lasting
use rg_agent_engine.Credits.Once.{deducts_once}
use rg_agent_engine.Credits.Sections.{
  Command, adds, deducts, refunds, perform_all, perform_all-nonneg,
}

record Tables : Type 0 where
  time : ℕ
  balances : Key → ℤ
  transactions : Key → Option (Item Entry)
  reservations : Key → Option (Item Entry)

-- The item after a write, which keeps its time to expire.
abbrev written : Entry → Option (Item Entry) → Option (Item Entry)
written e o = some (record { item = e; until = until_of o })

increased :
    (k j : Key) (a : ℤ) (f : Key → ℤ) → place k (f k +ℤ a) f j ≡ (if k == j then f j +ℤ a else f j)
increased k j a f = elim (Bool-cases (k == j)) [
  | inl same ↦ let at : k ≡ j = ground arith in rw same (ap (λ i. f i +ℤ a) at)
  | inr other ↦ rw other refl
]

kept_item :
    (k j : Key) (t : ℕ) (f : Key → Option (Item Entry))
    → item_of (place k (expire_at t (f k)) f j) ≡ item_of (f j)
kept_item k j t f = place_same item_of k j (expire_at t (f k)) f (item_kept t (f k))

expired_at :
    (k j : Key) (t : ℕ) (f : Key → Option (Item Entry)) (e : Entry)
    → item_of (f k) ≡ some e
    → until_of (place k (expire_at t (f k)) f j) ≡ (if k == j then some t else until_of (f j))
expired_at k j t f e h =
    ap_if until_of (k == j) (expire_at t (f k)) (f j)
    ∙ ap (λ u. if k == j then u else until_of (f j)) (expire_found t (f k) e h)

dropped_item :
    (now : ℕ) (o : Option (Item Entry))
    → item_of (drop_item now o) ≡ (if is_past now (until_of o) then none else item_of o)
dropped_item now o = ap_if item_of (is_past now (until_of o)) none o

tables : CreditStore
tables = record {
  Store = Tables;
  balance = λ k s. s.balances k;
  incr_balance = λ k a s. record s { balances = place k (s.balances k +ℤ a) s.balances };
  transaction = λ k s. item_of (s.transactions k);
  set_transaction =
      λ k e s. record s { transactions = place k (written e (s.transactions k)) s.transactions };
  transaction_expires = λ k s. until_of (s.transactions k);
  expire_transaction = λ k n s. record s {
    transactions = place k (expire_at (s.time + n) (s.transactions k)) s.transactions;
  };
  reservation = λ k s. item_of (s.reservations k);
  set_reservation =
      λ k e s. record s { reservations = place k (written e (s.reservations k)) s.reservations };
  reservation_expires = λ k s. until_of (s.reservations k);
  expire_reservation = λ k n s. record s {
    reservations = place k (expire_at (s.time + n) (s.reservations k)) s.reservations;
  };
  delete_reservation = λ k s. record s { reservations = place k none s.reservations };
  clock = λ s. s.time;
  advance = λ n s. record {
    time = s.time + n;
    balances = s.balances;
    transactions = λ k. drop_item (s.time + n) (s.transactions k);
    reservations = λ k. drop_item (s.time + n) (s.reservations k);
  };
  balance-incr_balance = λ k j a s. increased k j a s.balances;
  balance-set_transaction = λ k j e s. refl;
  balance-set_reservation = λ k j e s. refl;
  balance-expire_transaction = λ k j n s. refl;
  balance-expire_reservation = λ k j n s. refl;
  balance-advance = λ j n s. refl;
  balance-delete_reservation = λ k j s. refl;
  transaction-incr_balance = λ k j a s. refl;
  transaction-set_transaction =
      λ k j e s. ap_if item_of (k == j) (written e (s.transactions k)) (s.transactions j);
  transaction-expire_transaction = λ k j n s. kept_item k j (s.time + n) s.transactions;
  transaction-set_reservation = λ k j e s. refl;
  transaction-expire_reservation = λ k j n s. refl;
  transaction-advance = λ j n s. dropped_item (s.time + n) (s.transactions j);
  transaction_expires-incr_balance = λ k j a s. refl;
  transaction_expires-set_transaction =
      λ k j e s. place_same until_of k j (written e (s.transactions k)) s.transactions refl;
  transaction_expires-expire_transaction =
      λ k j n s e h. expired_at k j (s.time + n) s.transactions e h;
  transaction_expires-set_reservation = λ k j e s. refl;
  transaction_expires-expire_reservation = λ k j n s. refl;
  transaction_expires-delete_reservation = λ k j s. refl;
  transaction_expires-advance = λ j n s.
      ap_if until_of (is_past (s.time + n) (until_of (s.transactions j))) none (s.transactions j);
  transaction-delete_reservation = λ k j s. refl;
  reservation-incr_balance = λ k j a s. refl;
  reservation-set_reservation =
      λ k j e s. ap_if item_of (k == j) (written e (s.reservations k)) (s.reservations j);
  reservation-expire_reservation = λ k j n s. kept_item k j (s.time + n) s.reservations;
  reservation-delete_reservation = λ k j s. ap_if item_of (k == j) none (s.reservations j);
  reservation-advance = λ j n s. dropped_item (s.time + n) (s.reservations j);
  reservation_expires-expire_reservation =
      λ k j n s e h. expired_at k j (s.time + n) s.reservations e h;
  clock-incr_balance = λ k a s. refl;
  clock-set_transaction = λ k e s. refl;
  clock-expire_transaction = λ k n s. refl;
  clock-set_reservation = λ k e s. refl;
  clock-expire_reservation = λ k n s. refl;
  clock-delete_reservation = λ k s. refl;
  clock-advance = λ n s. refl;
}

-- The user 7 has 100 credits.
abbrev funded : Tables
funded = record {
  time = 50;
  balances = λ k. if k == 7 then pos 100 else pos 0;
  transactions = λ k. none;
  reservations = λ k. none;
}

ledger : tables.Store
unfolding tables
ledger = funded

deducted : (deduct_credits tables 7 (pos 40) 1 (some ledger)).0.0 ≡ none
unfolding deduct_credits check_deduction settle_deduction deduct_script record_transaction tables
    ledger ◌+ℤ◌ ◌-ℤ◌
deducted = refl

-- The second call uses the transaction of the first with other users and after a day.
abbrev in_between : List Call
in_between =
    Lasting.deducts 8 (pos 40) 1 ∷ waits 86400 ∷ reserves 7 (pos 20) 3 300 ∷ confirms 3 1 ∷ []

deducts_once_example :
    let c = run_calls tables in_between (deduct_credits tables 7 (pos 40) 1 (some ledger)).1 in
    let (r, c') = deduct_credits tables 7 (pos 40) 1 c in (r.0 ≢ none) × (c' ≡ c)
deducts_once_example =
    deducts_once tables 7 7 (pos 40) (pos 40) 1 in_between ledger deducted (omega arith)

error_of : {A B C : Type 0} → (A × B) × C → A
error_of r = r.0.0

-- After the thirty days the transaction is taken again.
taken_later :
    error_of (
      deduct_credits tables 7 (pos 40) 1 (
        run_calls tables (waits 2592000 ∷ []) (deduct_credits tables 7 (pos 40) 1 (some ledger)).1))
    ≡ none
unfolding error_of run_calls deduct_credits check_deduction settle_deduction deduct_script
    record_transaction tables ledger ◌+ℤ◌ ◌-ℤ◌
taken_later = refl

checked : check_deduction tables (pos 40) 1 ledger ≡ none
unfolding check_deduction tables ledger
checked = refl

covered : pos 40 +ℤ pos 40 ≤ℤ tables.balance 7 ledger
unfolding tables ledger ◌+ℤ◌
covered = omega arith

deducts_twice_example :
    let (r, s') = settle_deduction tables 7 (pos 40) 1 ledger in
    let (r', s'') = settle_deduction tables 7 (pos 40) 1 s' in
    (r.0 ≡ none)
    × (r'.0 ≡ none)
    × (tables.balance 7 s'' +ℤ pos 40 +ℤ pos 40 ≡ tables.balance 7 ledger)
deducts_twice_example = deducts_twice tables 7 (pos 40) 1 ledger checked covered

abbrev interleaved : List Command
interleaved = adds 7 (pos 5) ∷ deducts 7 (pos 70) ∷ deducts 7 (pos 70) ∷ refunds 7 (pos 10) ∷ []

perform_all-nonneg_example : pos 0 ≤ℤ tables.balance 7 (perform_all tables interleaved ledger)
perform_all-nonneg_example =
    perform_all-nonneg tables 7 interleaved ledger refl (unfold tables ledger in omega arith)
