-- ===== src/Concurrency/Settling.antt =====
-- shared/agent/concurrency.py: `_block_dependents` and `mark_failed` leave_search no dependent pending.
use rg_agent_engine.Base.{
  ℕ, zero, suc, ◌≤◌, ◌<◌, ◌≡◌, refl, inl, inr, Key, true, false, some, List, [], ◌∷◌, ◌==◌, arith,
  subst, sym, Bool-cases, Option-cases,
}
use rg_agent_engine.Base.Lists.{member}
use rg_agent_engine.Base.Dict.{Dict, get, put, get-put}
use rg_agent_engine.Concurrency.Graph.{
  TaskNode, set_blocked, block_one, block_each, block_dependents,
}
use rg_agent_engine.Concurrency.Nodes.{Blocks, count_if, count_if-put}
use rg_agent_engine.Concurrency.Blocking.{
  Blocks-get, Blocks-waiting, Blocks-count_waiting, block_one-Blocks, block_each-Blocks,
  block_one_missing, block_one_waiting, block_one_started, block_dependents_missing,
  block_dependents_found, block_dependents-Blocks, is_waiting, IsSettled, AreSettled,
  AreSettled-trans,
}

abbrev pub Rec : Type 0
Rec = Key → Dict TaskNode → Dict TaskNode

-- A recursive call that does its work wherever fewer than `n` tasks are pending.
pub record Settles (n : ℕ) (rec : Rec) : Type 0 where
  pub steps : (k : Key) (d : Dict TaskNode) → Blocks d (rec k d)
  pub settled : (k : Key) (d : Dict TaskNode) → count_if is_waiting d < n → AreSettled d (rec k d)
  pub own : (k : Key) (d : Dict TaskNode) → count_if is_waiting d < n → IsSettled (rec k d) k

abbrev NoneWaits : List Key → Dict TaskNode → Type 0
NoneWaits deps d =
    (j : Key) (m : TaskNode) → member j deps ≡ true → get j d ≡ some m → is_waiting m ≡ false

AreSettled-refl : (d : Dict TaskNode) → AreSettled d d
AreSettled-refl d k n m g w h x = ground arith

-- Blocking one task and, through it, what depends on it.
one_clears :
    (n : ℕ) (rec : Rec)
    → Settles n rec
    → (k : Key) (v : TaskNode) (d : Dict TaskNode) → get k d ≡ some v
    → is_waiting v ≡ true
    → count_if is_waiting d ≤ n
    → AreSettled d (rec k (put k (set_blocked v) d))
one_clears n rec f k v d g w c j a b ga wa gb wb =
    let d1 = put k (set_blocked v) d in
    let fewer : count_if is_waiting d1 < n =
      ground (arith, count_if-put is_waiting k v (set_blocked v) d) in
    elim (Bool-cases (k == j)) [
      | inl same ↦ let e : k ≡ j = ground arith in rw (← e) (f.own k d1 fewer)
      | inr other ↦
          f.settled k d1 fewer j a b (ground (arith, get-put k j (set_blocked v) d)) wa gb wb
    ]

block_one_clears :
    (n : ℕ) (rec : Rec)
    → Settles n rec
    → (k : Key) (d : Dict TaskNode) → count_if is_waiting d ≤ n
    → AreSettled d (block_one rec k d)
block_one_clears n rec f k d c = elim (Option-cases (get k d)) [
  | inl e ↦ subst (AreSettled d) (sym (block_one_missing rec k d e)) (AreSettled-refl d)
  | inr (v, e) ↦ elim (Bool-cases (is_waiting v)) [
    | inl p ↦
        subst (AreSettled d) (sym (block_one_waiting rec k d v e p))
          (one_clears n rec f k v d e p c)
    | inr p ↦ subst (AreSettled d) (sym (block_one_started rec k d v e p)) (AreSettled-refl d)
  ]
]

block_one_passed :
    (n : ℕ) (rec : Rec)
    → Settles n rec
    → (k : Key) (d : Dict TaskNode) (m : TaskNode) → get k (block_one rec k d) ≡ some m
    → is_waiting m ≡ false
block_one_passed n rec f k d m h = elim (Option-cases (get k d)) [
  | inl e ↦ cc (block_one_missing rec k d e)
  | inr (v, e) ↦ elim (Bool-cases (is_waiting v)) [
    | inl p ↦
        let d1 = put k (set_blocked v) d in
        Blocks-waiting k d1 (rec k d1) (f.steps k d1) (set_blocked v) m
          (ground (arith, get-put k k (set_blocked v) d)) refl
          (rw (block_one_waiting rec k d v e p) at h)
    | inr p ↦ ground (arith, block_one_started rec k d v e p)
  ]
]

block_each_clears :
    (n : ℕ) (rec : Rec)
    → Settles n rec
    → (deps : List Key) (d : Dict TaskNode) → count_if is_waiting d ≤ n
    → AreSettled d (block_each rec deps d) × NoneWaits deps (block_each rec deps d)
unfolding block_each
block_each_clears n rec f [] d c = (AreSettled-refl d, λ j m i h. cc)
block_each_clears n rec f (k ∷ deps) d c =
    let d1 = block_one rec k d in
    let step = block_one-Blocks rec f.steps k d in
    let rest = block_each-Blocks rec f.steps deps d1 in
    let (later, none_waits) =
      block_each_clears n rec f deps d1 (omega (arith, Blocks-count_waiting d d1 step)) in
    (
      AreSettled-trans d d1 _ rest (block_one_clears n rec f k d c) later,
      λ j m i h. elim (Bool-cases (j == k)) [
        | inl same ↦
            let (v, found, changed) = Blocks-get j d1 _ rest m h in
            let e : j ≡ k = ground arith in
            Blocks-waiting j d1 _ rest v m found
              (block_one_passed n rec f k d v (subst (λ (x : Key). get x d1 ≡ some v) e found)) h
        | inr other ↦ none_waits j m (ground arith) h
      ],
    )

Settles-step : (n : ℕ) → Settles n (block_dependents n) → Settles (suc n) (block_dependents (suc n))
Settles-step n below = record {
  steps = block_dependents-Blocks (suc n);
  settled = λ k d c. elim (Option-cases (get k d)) [
    | inl e ↦ subst (AreSettled d) (sym (block_dependents_missing n k d e)) (AreSettled-refl d)
    | inr (v, e) ↦
        subst (AreSettled d) (sym (block_dependents_found n k d v e))
          (block_each_clears n _ below v.dependents d (omega (arith, c))).0
  ];
  own = λ k d c a m j ga i gm. elim (Option-cases (get k d)) [
    | inl e ↦ cc (block_dependents_missing n k d e)
    | inr (v, e) ↦
        let same = block_dependents_found n k d v e in
        let (u, found, changed) = Blocks-get k d _ (block_dependents-Blocks (suc n) k d) a ga in
        (block_each_clears n _ below v.dependents d (omega (arith, c))).1 j m (ground arith)
          (rw same at gm)
  ];
}

pub block_dependents-Settles : (fuel : ℕ) → Settles fuel (block_dependents fuel)
block_dependents-Settles zero = record {
  steps = block_dependents-Blocks zero;
  settled = λ k d c. absurd (omega (arith, c));
  own = λ k d c. absurd (omega (arith, c));
}
block_dependents-Settles (suc fuel) = Settles-step fuel (block_dependents-Settles fuel)
