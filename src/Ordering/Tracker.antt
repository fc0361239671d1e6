-- ===== src/Ordering/Tracker.antt =====
-- shared/messaging/ordering.py: `SequenceTracker`. Sequence numbers count from 0, and the highest
-- seen is none where the source has -1.
use rg_agent_engine.Base.{
  ℕ, ◌+◌, ◌-◌, Bool, true, false, Option, none, some, List, [], ◌∷◌, ◌++◌, ◌==◌, ltb, leb, ◌&&◌,
  if◌then◌else◌,
}
use rg_agent_engine.Base.Lists.{keep_if}

pub record SequenceTracker : Type 0 where
  pub next_expected : ℕ
  pub highest_seen : Option ℕ
  pub gaps : List (ℕ × ℕ)
  pub received_count : ℕ
  pub duplicate_count : ℕ
  pub out_of_order_count : ℕ

unfoldable pub new_tracker : SequenceTracker
new_tracker = record {
  next_expected = 0;
  highest_seen = none;
  gaps = [];
  received_count = 0;
  duplicate_count = 0;
  out_of_order_count = 0;
}

abbrev max_seen : Option ℕ → ℕ → ℕ
max_seen none n = n
max_seen (some m) n = if ltb m n then n else m

-- `_consolidate_gaps`
unfoldable pub consolidate_gaps : SequenceTracker → SequenceTracker
consolidate_gaps t = record t { gaps = keep_if (λ g. leb t.next_expected g.1) t.gaps }

-- What a sequence number is when it comes.
pub data Arrival : Type 0 where
  duplicate expected gap_detected : Arrival

-- The three flags of the source are exactly one of `duplicate`, `expected` and `gap_detected`.
unfoldable pub record_sequence : ℕ → SequenceTracker → Arrival × SequenceTracker
unfolding consolidate_gaps
record_sequence n t =
    if ltb n t.next_expected
    then (
      duplicate,
      record t { received_count = t.received_count + 1; duplicate_count = t.duplicate_count + 1 },
    )
    else if n == t.next_expected
    then (
      expected,
      consolidate_gaps (record t {
        received_count = t.received_count + 1;
        next_expected = n + 1;
        highest_seen = some (max_seen t.highest_seen n);
      }),
    )
    else (
      gap_detected,
      record t {
        received_count = t.received_count + 1;
        out_of_order_count = t.out_of_order_count + 1;
        gaps = t.gaps ++ (t.next_expected, n - 1) ∷ [];
        next_expected = n + 1;
        highest_seen = some (max_seen t.highest_seen n);
      },
    )

abbrev pub within : ℕ → ℕ × ℕ → Bool
within n g = leb g.0 n && leb n g.1

-- What is left of one gap.
unfoldable pub split_gap : ℕ → ℕ × ℕ → List (ℕ × ℕ)
split_gap n g =
    if g.0 == g.1
    then []
    else if n == g.0
    then (g.0 + 1, g.1) ∷ []
    else if n == g.1
    then (g.0, g.1 - 1) ∷ []
    else (g.0, n - 1) ∷ (n + 1, g.1) ∷ []

-- The loop of `fill_gap`: whether a gap was filled, and the gaps that are left.
unfoldable pub fill_gaps : ℕ → List (ℕ × ℕ) → Bool × List (ℕ × ℕ)
unfolding split_gap
fill_gaps n [] = (false, [])
fill_gaps n (g ∷ gs) =
    let (filled, rest) = fill_gaps n gs in
    if within n g then (true, split_gap n g ++ rest) else (filled, g ∷ rest)

unfoldable pub fill_gap : ℕ → SequenceTracker → Bool × SequenceTracker
unfolding fill_gaps
fill_gap n t = let (filled, gaps) = fill_gaps n t.gaps in (filled, record t { gaps = gaps })

unfoldable pub has_gaps : SequenceTracker → Bool
has_gaps t = elim t.gaps [ [] ↦ false | g ∷ gs ↦ true ]
