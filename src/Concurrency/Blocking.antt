-- ===== src/Concurrency/Blocking.antt =====
-- shared/agent/concurrency.py: `_block_dependents` and `mark_failed`.
use rg_agent_engine.Base.{
  ℕ, zero, suc, ◌≤◌, ◌≡◌, refl, ◌⊎◌, inl, inr, Key, Bool, true, false, none, some, List, [], ◌∷◌,
  ◌==◌, arith, Bool-cases, Option-cases,
}
use rg_agent_engine.Base.Lists.{member}
use rg_agent_engine.Base.Dict.{Dict, get, put, get-put}
use rg_agent_engine.Concurrency.Graph.{
  TaskState, TaskNode, pending, is_pending, set_blocked, block_one, block_each, block_dependents,
}
use rg_agent_engine.Concurrency.Nodes.{
  Blocks, unchanged, block, Blocks-trans, count_if, count_if-put,
}

pub pending_state : (s : TaskState) → is_pending s ≡ true → s ≡ pending
pending_state s h = ground arith

-- A node after blocking is the node as it was, or was pending and is blocked.
pub Blocks-get :
    (k : Key) (d d' : Dict TaskNode)
    → Blocks d d'
    → (m : TaskNode) → get k d' ≡ some m
    → (n : TaskNode) × (get k d ≡ some n) × ((m ≡ n) ⊎ ((n.state ≡ pending) × (m ≡ set_blocked n)))
Blocks-get k d d' (unchanged _ _ e) m h = (m, rw e h, inl refl)
Blocks-get k d d' (block j v _ _ g s b) m h =
    let (n, found, same) = Blocks-get k (put j (set_blocked v) d) d' b m h in
    elim (Bool-cases (j == k)) [
      | inl here ↦ (v, ground arith, ground (arith, get-put j k (set_blocked v) d))
      | inr other ↦ (n, ground (arith, get-put j k (set_blocked v) d), same)
    ]

pub Blocks-count :
    (p : TaskNode → Bool) (d d' : Dict TaskNode)
    → ((n : TaskNode) → n.state ≡ pending → p (set_blocked n) ≡ p n)
    → Blocks d d'
    → count_if p d' ≡ count_if p d
Blocks-count p d d' f (unchanged _ _ e) = rw e refl
Blocks-count p d d' f (block k n _ _ g s b) =
    ground (arith, Blocks-count p _ d' f b, count_if-put p k n (set_blocked n) d, f n s)

module _ (rec : Key → Dict TaskNode → Dict TaskNode) (k : Key) (d : Dict TaskNode) where
  pub block_one_missing : get k d ≡ none → block_one rec k d ≡ d
  unfolding block_one
  block_one_missing e = ground arith

  pub block_one_waiting :
      (v : TaskNode)
      → get k d ≡ some v
      → is_pending v.state ≡ true
      → block_one rec k d ≡ rec k (put k (set_blocked v) d)
  unfolding block_one
  block_one_waiting v e p = ground arith

  pub block_one_started :
      (v : TaskNode) → get k d ≡ some v → is_pending v.state ≡ false → block_one rec k d ≡ d
  unfolding block_one
  block_one_started v e p = ground arith

pub block_one-Blocks :
    (rec : Key → Dict TaskNode → Dict TaskNode)
    → ((k : Key) (d : Dict TaskNode) → Blocks d (rec k d))
    → (k : Key) (d : Dict TaskNode) → Blocks d (block_one rec k d)
block_one-Blocks rec f k d = elim (Option-cases (get k d)) [
  | inl e ↦ rw (block_one_missing rec k d e) (unchanged d d refl)
  | inr (n, e) ↦ elim (Bool-cases (is_pending n.state)) [
    | inl p ↦
        rw (block_one_waiting rec k d n e p) (block k n d _ e (pending_state n.state p) (f k _))
    | inr p ↦ rw (block_one_started rec k d n e p) (unchanged d d refl)
  ]
]

pub block_each-Blocks :
    (rec : Key → Dict TaskNode → Dict TaskNode)
    → ((k : Key) (d : Dict TaskNode) → Blocks d (rec k d))
    → (deps : List Key) (d : Dict TaskNode) → Blocks d (block_each rec deps d)
unfolding block_each
block_each-Blocks rec f [] d = unchanged d d refl
block_each-Blocks rec f (k ∷ deps) d =
    Blocks-trans d _ _ (block_one-Blocks rec f k d)
      (block_each-Blocks rec f deps (block_one rec k d))

module _ (fuel : ℕ) (id : Key) (d : Dict TaskNode) where
  pub block_dependents_missing : get id d ≡ none → block_dependents (suc fuel) id d ≡ d
  unfolding block_dependents
  block_dependents_missing e = ground arith

  pub block_dependents_found :
      (n : TaskNode)
      → get id d ≡ some n
      → block_dependents (suc fuel) id d ≡ block_each (block_dependents fuel) n.dependents d
  unfolding block_dependents
  block_dependents_found n e = ground arith

pub block_dependents-Blocks :
    (fuel : ℕ) (id : Key) (d : Dict TaskNode) → Blocks d (block_dependents fuel id d)
block_dependents-Blocks zero id d = unfold block_dependents in unchanged d d refl
block_dependents-Blocks (suc fuel) id d = elim (Option-cases (get id d)) [
  | inl e ↦ rw (block_dependents_missing fuel id d e) (unchanged d d refl)
  | inr (n, e) ↦
      rw (block_dependents_found fuel id d n e)
        (block_each-Blocks (block_dependents fuel) (block_dependents-Blocks fuel) n.dependents d)
]

abbrev pub is_waiting : TaskNode → Bool
is_waiting n = is_pending n.state

-- No dependent of the task `k` is pending.
abbrev pub IsSettled : Dict TaskNode → Key → Type 0
IsSettled d k =
    (n m : TaskNode) (j : Key)
    → get k d ≡ some n
    → member j n.dependents ≡ true
    → get j d ≡ some m
    → is_waiting m ≡ false

-- The tasks that were blocked between the two have settled.
abbrev pub AreSettled : Dict TaskNode → Dict TaskNode → Type 0
AreSettled d d' =
    (k : Key) (n m : TaskNode)
    → get k d ≡ some n
    → is_waiting n ≡ true
    → get k d' ≡ some m
    → is_waiting m ≡ false
    → IsSettled d' k

pub Blocks-waiting :
    (k : Key) (d d' : Dict TaskNode)
    → Blocks d d'
    → (n m : TaskNode) → get k d ≡ some n
    → is_waiting n ≡ false
    → get k d' ≡ some m
    → is_waiting m ≡ false
Blocks-waiting k d d' b n m g w h = let (v, found, same) = Blocks-get k d d' b m h in ground arith

pub IsSettled-Blocks :
    (k : Key) (d d' : Dict TaskNode) → Blocks d d' → IsSettled d k → IsSettled d' k
IsSettled-Blocks k d d' b q n m j g i h =
    let (n', found, same) = Blocks-get k d d' b n g in
    let (m', found', same') = Blocks-get j d d' b m h in
    let i' : member j n'.dependents ≡ true = ground arith in
    Blocks-waiting j d d' b m' m found' (q n' m' j found i' found') h

pub AreSettled-trans :
    (a b c : Dict TaskNode) → Blocks b c → AreSettled a b → AreSettled b c → AreSettled a c
AreSettled-trans a b c q s t k n m g w h x =
    let (v, found, same) = Blocks-get k b c q m h in
    elim (Bool-cases (is_waiting v)) [
      | inl still ↦ t k v m found still h x
      | inr gone ↦ IsSettled-Blocks k b c q (s k n v g w found gone)
    ]

pub Blocks-count_waiting :
    (d d' : Dict TaskNode) → Blocks d d' → count_if is_waiting d' ≤ count_if is_waiting d
Blocks-count_waiting d d' (unchanged _ _ e) = rw e (omega arith)
Blocks-count_waiting d d' (block k n _ _ g s b) =
    ground (arith, Blocks-count_waiting _ d' b, count_if-put is_waiting k n (set_blocked n) d)
