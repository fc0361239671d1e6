-- ===== src/Concurrency/Failure.antt =====
-- shared/agent/concurrency.py: what `mark_failed` does to every task.
use rg_agent_engine.Base.{
  ℕ, suc, ◌<◌, ◌≡◌, refl, ◌≢◌, ◌⊎◌, inl, inr, Key, Bool, true, false, not, ◌&&◌, none, some, List,
  [], ◌∷◌, ◌==◌, arith, subst, sym, Bool-cases, Option-cases,
}
use rg_agent_engine.Base.Lists.{length, member}
use rg_agent_engine.Base.Dict.{Dict, get, put, get-put}
use rg_agent_engine.Concurrency.Graph.{
  TaskNode, TaskGraph, pending, set_blocked, set_failed, block_dependents, mark_failed,
}
use rg_agent_engine.Concurrency.Nodes.{length-put, count_if, count_if-le-length}
use rg_agent_engine.Concurrency.Blocking.{
  Blocks-get, block_dependents-Blocks, is_waiting, IsSettled,
}
use rg_agent_engine.Concurrency.Settling.{block_dependents-Settles}

-- None of the tasks is pending.
abbrev pub none_waits : List Key → Dict TaskNode → Bool
none_waits [] d = true
none_waits (k ∷ deps) d = elim (get k d) [
  | none ↦ none_waits deps d
  | some n ↦ not (is_waiting n) && none_waits deps d
]

none_waits_lem :
    (deps : List Key) (d : Dict TaskNode)
    → ((j : Key) (m : TaskNode) → member j deps ≡ true → get j d ≡ some m → is_waiting m ≡ false)
    → none_waits deps d ≡ true
none_waits_lem [] d h = refl
none_waits_lem (k ∷ deps) d h =
    let rest = none_waits_lem deps d (λ j m i. h j m (ground arith)) in
    elim (Option-cases (get k d)) [ inl e ↦ ground arith | inr (n, e) ↦ ground (arith, h k n) ]

-- A task `k` that was `a` is `b` after the task `id` failed.
abbrev pub Outcome : ℕ → Key → Key → Key → TaskNode → TaskNode → Dict TaskNode → Type 0
Outcome now id error k a b nodes =
    ((k ≡ id) × (b ≡ set_failed now error a) × (none_waits a.dependents nodes ≡ true))
    ⊎ (((k ≢ id) × (b ≡ a))
        ⊎ ((k ≢ id)
            × (a.state ≡ pending)
            × (b ≡ set_blocked a)
            × (none_waits a.dependents nodes ≡ true)))

settled_none_waits :
    (d : Dict TaskNode) (k : Key) (n : TaskNode)
    → IsSettled d k
    → get k d ≡ some n
    → none_waits n.dependents d ≡ true
settled_none_waits d k n s g = none_waits_lem n.dependents d (λ j m i. s n m j g i)

module _ (now : ℕ) (id error k : Key) (a b : TaskNode) (fuel : ℕ) (nodes : Dict TaskNode)
    (n : TaskNode) where
  abbrev marked : Dict TaskNode
  marked = put id (set_failed now error n) nodes

  own_outcome :
      count_if is_waiting marked < fuel
      → get id nodes ≡ some n
      → k ≡ id
      → get k nodes ≡ some a
      → get k (block_dependents fuel id marked) ≡ some b
      → Outcome now id error k a b (block_dependents fuel id marked)
  own_outcome c e same ga gb =
      let d' = block_dependents fuel id marked in
      let gid : get id d' ≡ some b = subst (λ (x : Key). get x d' ≡ some b) same gb in
      let (v, found, changed) =
        Blocks-get id marked d' (block_dependents-Blocks fuel id marked) b gid in
      let own = settled_none_waits d' id b ((block_dependents-Settles fuel).own id marked c) gid in
      let v_is : v ≡ set_failed now error n =
        ground (arith, get-put id id (set_failed now error n) nodes) in
      let n_is : n ≡ a = ground arith in
      let b_is : b ≡ set_failed now error a = ground arith in inl (same, b_is, ground arith)

  other_outcome :
      count_if is_waiting marked < fuel
      → k ≢ id
      → get k nodes ≡ some a
      → get k (block_dependents fuel id marked) ≡ some b
      → Outcome now id error k a b (block_dependents fuel id marked)
  other_outcome c other ga gb =
      let d' = block_dependents fuel id marked in
      let ga' : get k marked ≡ some a =
        ground (arith, get-put id k (set_failed now error n) nodes) in
      let (v, found, changed) =
        Blocks-get k marked d' (block_dependents-Blocks fuel id marked) b gb in
      let v_is : v ≡ a = ground arith in
      elim changed [
        | inl same ↦ inr (inl (other, ground arith))
        | inr (p, is) ↦
            let b_is : b ≡ set_blocked a = ground arith in
            let rest =
              (block_dependents-Settles fuel).settled id marked c k a b ga' (ground arith) gb
                (ground arith) in
            let settled = settled_none_waits d' k b rest gb in
            inr (inr (other, ground arith, b_is, ground arith))
      ]

mark_failed-missing :
    (now : ℕ) (id error : Key) (g : TaskGraph)
    → get id g.nodes ≡ none
    → mark_failed now id error g ≡ g
unfolding mark_failed
mark_failed-missing now id error g e = ground arith

pub mark_failed-found :
    (now : ℕ) (id error : Key) (g : TaskGraph) (n : TaskNode)
    → get id g.nodes ≡ some n
    → (mark_failed now id error g).nodes
      ≡ block_dependents (suc (length g.nodes)) id (put id (set_failed now error n) g.nodes)
unfolding mark_failed
mark_failed-found now id error g n e = ground arith

-- When a task fails, it is FAILED with its error and time, and every other task stays as it was or
-- goes from PENDING to BLOCKED; none of the dependents of the failed task or of a task blocked now
-- is PENDING afterwards, so that the blocking has gone all the way down.
pub mark_failed_lem :
    (now : ℕ) (id error k : Key) (g : TaskGraph) (a b : TaskNode)
    → get k g.nodes ≡ some a
    → get k (mark_failed now id error g).nodes ≡ some b
    → Outcome now id error k a b (mark_failed now id error g).nodes
mark_failed_lem now id error k g a b ga gb = elim (Option-cases (get id g.nodes)) [
  | inl e ↦ let same = mark_failed-missing now id error g e in inr (inl ((λ q. cc), ground arith))
  | inr (n, e) ↦
      let d = put id (set_failed now error n) g.nodes in
      let fuel = suc (length g.nodes) in
      let nodes_are = mark_failed-found now id error g n e in
      let enough : count_if is_waiting d < fuel = omega (
        arith,
        count_if-le-length is_waiting d,
        length-put id n (set_failed now error n) g.nodes e,
      ) in
      subst (Outcome now id error k a b) (sym nodes_are) (elim (Bool-cases (k == id)) [
        | inl same ↦
            own_outcome now id error k a b fuel g.nodes n enough e (ground arith) ga
              (rw nodes_are at gb)
        | inr other ↦
            other_outcome now id error k a b fuel g.nodes n enough (ground arith) ga
              (rw nodes_are at gb)
      ])
]
