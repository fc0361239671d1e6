-- ===== src/Ordering/Gaps.antt =====
-- shared/messaging/ordering.py: what the gaps say.
use rg_agent_engine.Base.{
  ℕ, ◌+◌, ◌-◌, ◌≤◌, ◌<◌, ◌≡◌, refl, Bool, true, false, not, List, [], ◌∷◌, ◌++◌, ◌==◌, ltb, leb,
  ◌&&◌, ◌||◌, if◌then◌else◌, arith, Bool-cases, inl, inr, ◌∙◌,
}
use rg_agent_engine.Base.Lists.{keep_if, All, All-append}
use rg_agent_engine.Ordering.Tracker.{
  SequenceTracker, new_tracker, expected, consolidate_gaps, record_sequence, within, split_gap,
  fill_gaps, fill_gap,
}

-- The number is missing, by these gaps.
abbrev pub is_missing : ℕ → List (ℕ × ℕ) → Bool
is_missing n [] = false
is_missing n (g ∷ gs) = within n g || is_missing n gs

is_missing-append :
    (n : ℕ) (xs ys : List (ℕ × ℕ)) → is_missing n (xs ++ ys) ≡ (is_missing n xs || is_missing n ys)
is_missing-append n [] ys = refl
is_missing-append n (x ∷ xs) ys = ground (arith, is_missing-append n xs ys)

is_missing-split_gap :
    (n k : ℕ) (g : ℕ × ℕ)
    → within n g ≡ true
    → is_missing k (split_gap n g) ≡ (within k g && not (k == n))
unfolding split_gap
is_missing-split_gap n k (a, b) h = ground arith

fill_gaps-cons :
    (n : ℕ) (g : ℕ × ℕ) (gs : List (ℕ × ℕ))
    → fill_gaps n (g ∷ gs)
      ≡ if◌then◌else◌ {A = Bool × List (ℕ × ℕ)}
          (within n g)
          (true, split_gap n g ++ (fill_gaps n gs).1)
          ((fill_gaps n gs).0, g ∷ (fill_gaps n gs).1)
unfolding fill_gaps
fill_gaps-cons n g gs = refl

not_here : (n k : ℕ) (g : ℕ × ℕ) → within n g ≡ false → (within k g && not (k == n)) ≡ within k g
not_here n k (a, b) h = ground arith

spread : (a b c : Bool) → ((a && c) || (b && c)) ≡ ((a || b) && c)
spread true true c = ground arith
spread true false true = refl
spread true false false = refl
spread false b c = refl

spread_left : (a b c : Bool) → (a && c) ≡ a → (a || (b && c)) ≡ ((a || b) && c)
spread_left true b c h = ground arith
spread_left false b c h = refl

fill_gaps-missing :
    (n k : ℕ) (gs : List (ℕ × ℕ))
    → ((fill_gaps n gs).0 ≡ is_missing n gs)
      × (is_missing k (fill_gaps n gs).1 ≡ (is_missing k gs && not (k == n)))
fill_gaps-missing n k [] = unfold fill_gaps in (refl, refl)
fill_gaps-missing n k (g ∷ gs) =
    let (fills, left) = fill_gaps-missing n k gs in
    let spreads = spread (within k g) (is_missing k gs) (not (k == n)) in
    rw (fill_gaps-cons n g gs) (elim (Bool-cases (within n g)) [
      | inl here ↦ (
        rw here,
        rw here (
            is_missing-append k (split_gap n g) (fill_gaps n gs).1
            ∙ rw (is_missing-split_gap n k g here, left) spreads),
      )
      | inr away ↦ (
        rw away fills,
        rw away (
            rw left
              (spread_left (within k g) (is_missing k gs) (not (k == n)) (not_here n k g away))),
      )
    ])

-- Filling a gap reports whether the number was missing, and takes that number, and no other, from
-- the missing ones, whatever the gaps are and however they overlap.
pub fill_gap_lem :
    (n : ℕ) (t : SequenceTracker)
    → let (filled, t') = fill_gap n t in
      (filled ≡ is_missing n t.gaps)
      × ((k : ℕ) → is_missing k t'.gaps ≡ (is_missing k t.gaps && not (k == n)))
unfolding fill_gap
fill_gap_lem n t = ((fill_gaps-missing n n t.gaps).0, λ k. (fill_gaps-missing n k t.gaps).1)

-- The calls on a tracker.
pub data Call : Type 0 where
  records fills : ℕ → Call

unfoldable pub run : List Call → SequenceTracker → SequenceTracker
run [] t = t
run (records n ∷ cs) t = run cs (record_sequence n t).1
run (fills n ∷ cs) t = run cs (fill_gap n t).1

-- Every gap ends below the number that comes next.
abbrev EndsBelow : ℕ → ℕ × ℕ → Type 0
EndsBelow n g = g.1 < n

EndsBelow-le : (m n : ℕ) (gs : List (ℕ × ℕ)) → m ≤ n → All (EndsBelow m) gs → All (EndsBelow n) gs
EndsBelow-le m n [] le h = tt
EndsBelow-le m n (g ∷ gs) le (below, rest) = (omega (arith, below), EndsBelow-le m n gs le rest)

All-if :
    (P : ℕ × ℕ → Type 0) (b : Bool) (xs ys : List (ℕ × ℕ))
    → (b ≡ true → All P xs)
    → (b ≡ false → All P ys)
    → All P (if b then xs else ys)
All-if P true xs ys hx hy = hx refl
All-if P false xs ys hx hy = hy refl

All-split_gap :
    (n m : ℕ) (g : ℕ × ℕ) → EndsBelow m g → within n g ≡ true → All (EndsBelow m) (split_gap n g)
unfolding split_gap
All-split_gap n m (a, b) below here =
    let P = EndsBelow m in
    let both : List (ℕ × ℕ) = (a, n - 1) ∷ (n + 1, b) ∷ [] in
    let last : List (ℕ × ℕ) = if n == b then (a, b - 1) ∷ [] else both in
    All-if P (a == b) [] (if n == a then (a + 1, b) ∷ [] else last) (λ e. tt)
      (λ e.
        All-if P (n == a) ((a + 1, b) ∷ []) last (λ f. (below, tt))
          (λ f.
            All-if P (n == b) ((a, b - 1) ∷ []) both (λ x. (omega (arith, below), tt))
              (λ x. (ground arith, (below, tt)))))

All-fill_gaps :
    (n m : ℕ) (gs : List (ℕ × ℕ)) → All (EndsBelow m) gs → All (EndsBelow m) (fill_gaps n gs).1
All-fill_gaps n m [] h = unfold fill_gaps in tt
All-fill_gaps n m (g ∷ gs) (below, rest) =
    let left = All-fill_gaps n m gs rest in
    rw (fill_gaps-cons n g gs) (elim (Bool-cases (within n g)) [
      | inl here ↦ rw here (
          All-append (EndsBelow m) (split_gap n g) (fill_gaps n gs).1
            (All-split_gap n m g below here) left)
      | inr away ↦ rw away (below, left)
    ])

keep_if-below :
    (n : ℕ) (gs : List (ℕ × ℕ)) → All (EndsBelow n) gs → keep_if (λ g. leb n g.1) gs ≡ []
keep_if-below n [] h = refl
keep_if-below n (g ∷ gs) (below, rest) = ground (arith, keep_if-below n gs rest)

abbrev AllBelow : SequenceTracker → Type 0
AllBelow t = All (EndsBelow t.next_expected) t.gaps

expected-clears :
    (t : SequenceTracker)
    → AllBelow t
    → let (arrival, t') = record_sequence t.next_expected t in (arrival ≡ expected) × (t'.gaps ≡ [])
unfolding record_sequence consolidate_gaps
expected-clears t h =
    let n = t.next_expected in
    (
      ground arith,
      ground (arith, keep_if-below (n + 1) t.gaps (EndsBelow-le n (n + 1) t.gaps (omega arith) h)),
    )

record-AllBelow : (n : ℕ) (t : SequenceTracker) → AllBelow t → AllBelow (record_sequence n t).1
unfolding record_sequence consolidate_gaps
record-AllBelow n t h = elim (Bool-cases (ltb n t.next_expected)) [
  | inl old ↦ rw old h
  | inr new ↦ elim (Bool-cases (n == t.next_expected)) [
    | inl next ↦
        let none_left =
          keep_if-below (n + 1) t.gaps
            (EndsBelow-le t.next_expected (n + 1) t.gaps (ground arith) h) in
        rw (new, next) (rw none_left tt)
    | inr beyond ↦
        rw (new, beyond)
          (All-append (EndsBelow (n + 1)) t.gaps ((t.next_expected, n - 1) ∷ [])
            (EndsBelow-le t.next_expected (n + 1) t.gaps (ground arith) h) (omega arith, tt))
  ]
]

run-AllBelow : (cs : List Call) (t : SequenceTracker) → AllBelow t → AllBelow (run cs t)
unfolding run
run-AllBelow [] t h = h
run-AllBelow (records n ∷ cs) t h = run-AllBelow cs (record_sequence n t).1 (record-AllBelow n t h)
run-AllBelow (fills n ∷ cs) t h =
    run-AllBelow cs (fill_gap n t).1 (unfold fill_gap in All-fill_gaps n t.next_expected t.gaps h)

-- After any calls on a new tracker, the arrival of the number that comes next forgets every gap,
-- also those that nothing has filled.
pub run-forgets :
    (cs : List Call)
    → let t = run cs new_tracker in
      let (arrival, t') = record_sequence t.next_expected t in (arrival ≡ expected) × (t'.gaps ≡ [])
run-forgets cs =
    expected-clears (run cs new_tracker) (run-AllBelow cs new_tracker (unfold new_tracker in tt))
