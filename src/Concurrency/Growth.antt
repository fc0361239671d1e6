-- ===== src/Concurrency/Growth.antt =====
-- shared/agent/concurrency.py: `add_task` keeps the graph free of cycles.
use rg_agent_engine.Base.{
  ℕ, ◌+◌, ◌<◌, ◌≡◌, refl, ◌≢◌, ◌⊎◌, inl, inr, Key, true, false, none, some, List, [], ◌∷◌, ◌==◌,
  if◌then◌else◌, arith,
}
use rg_agent_engine.Base.Lists.{length, member}
use rg_agent_engine.Base.Dict.{
  Dict, get, put, get-put, get-put_inv, get-nil, has_key, has_key-get, values,
}
use rg_agent_engine.Concurrency.Graph.{
  TaskNode, TaskGraph, NewTask, new_graph, new_node, add_task, link,
}
use rg_agent_engine.Concurrency.Nodes.{length-put_new}
use rg_agent_engine.Concurrency.Links.{
  Links, link-Links, Links-get, Links-finds, Links-missing, Links-dependents, Links-length,
}
use rg_agent_engine.Concurrency.Cycle.{has_cycle, unknown_tasks, validate, add_tasks, are_fresh}
use rg_agent_engine.Concurrency.Acyclic.{IsRanked, has_cycle-IsRanked}

-- The new task ranks above all that are there.
abbrev above : Key → ℕ → (Key → ℕ) → Key → ℕ
above id top rank k = if id == k then top else rank k

module _ (t : NewTask) (g : TaskGraph) (rank : Key → ℕ) (fresh : get t.id g.nodes ≡ none)
    (r : IsRanked rank (length g.nodes) g.nodes) where
  abbrev linked : Dict TaskNode
  linked = link t.id (new_node t).depends_on g.nodes

  links : Links t.id g.nodes linked
  links = link-Links t.id (new_node t).depends_on g.nodes

  -- What a dependent of a task of the larger graph is.
  edge :
      (k j : Key) (n : TaskNode)
      → get k (put t.id (new_node t) linked) ≡ some n
      → member j n.dependents ≡ true
      → (t.id ≢ k)
        × (v : TaskNode) × (get k g.nodes ≡ some v)
        × ((j ≡ t.id) ⊎ ((j ≢ t.id) × (member j v.dependents ≡ true) × (has_key j g.nodes ≡ true)))
  edge k j n h m = elim (get-put_inv t.id k (new_node t) linked h) [
    | inl (same, is) ↦ ground arith
    | inr (other, old) ↦
        let (v, found, from) = Links-dependents k j g.nodes linked links n old m in
        (
          other,
          v,
          found,
          elim from [
            | inl new ↦ inl new
            | inr i ↦
                let (w, e) = has_key-get j g.nodes (r.present k j v found i) in
                inr ((λ q. ground arith), i, r.present k j v found i)
          ],
        )
  ]

  rank_below :
      (k : Key) (n : TaskNode)
      → get k (put t.id (new_node t) linked) ≡ some n
      → above t.id (length g.nodes) rank k < length g.nodes + 1
  rank_below k n h = elim (get-put_inv t.id k (new_node t) linked h) [
    | inl (same, is) ↦ ground arith
    | inr (other, old) ↦
        let (v, found, _, _) = Links-get k g.nodes linked links n old in
        ground (arith, r.below k v found)
  ]

  rank_upward :
      (k j : Key) (n : TaskNode)
      → get k (put t.id (new_node t) linked) ≡ some n
      → member j n.dependents ≡ true
      → above t.id (length g.nodes) rank k < above t.id (length g.nodes) rank j
  rank_upward k j n h m =
      let (other, v, found, from) = edge k j n h m in
      elim from [
        | inl new ↦ ground (arith, r.below k v found)
        | inr (old, i, has) ↦ ground (arith, r.upward k j v found i)
      ]

  still_present :
      (j : Key) → has_key j g.nodes ≡ true → has_key j (put t.id (new_node t) linked) ≡ true
  still_present j has =
      let (w, e) = has_key-get j g.nodes has in
      let (x, found, _) = Links-finds j g.nodes linked links w e in
      ground (arith, get-put t.id j (new_node t) linked)

  add_task-IsRanked :
      IsRanked (above t.id (length g.nodes) rank) (length (add_task t g).nodes) (add_task t g).nodes
  unfolding add_task
  add_task-IsRanked =
      let missing = Links-missing t.id g.nodes linked links fresh in
      let size = length-put_new t.id (new_node t) linked missing in
      let size' = Links-length g.nodes linked links in
      record {
        below = λ k n h. omega (arith, rank_below k n h, size, size');
        upward = rank_upward;
        present = λ k j n h m.
            let (other, v, found, from) = edge k j n h m in
            elim from [
              | inl new ↦ ground (arith, get-put t.id j (new_node t) linked)
              | inr (old, i, has) ↦ still_present j has
            ];
      }

has_cycle-add_tasks :
    (tasks : List NewTask) (g : TaskGraph) (rank : Key → ℕ)
    → are_fresh tasks g ≡ true
    → IsRanked rank (length g.nodes) g.nodes
    → has_cycle (add_tasks tasks g) ≡ some false
unfolding add_tasks are_fresh
has_cycle-add_tasks [] g rank f r = has_cycle-IsRanked g rank r
has_cycle-add_tasks (t ∷ tasks) g rank f r =
    let fresh : get t.id g.nodes ≡ none = ground arith in
    has_cycle-add_tasks tasks (add_task t g) (above t.id (length g.nodes) rank) (ground arith)
      (add_task-IsRanked t g rank fresh r)

new_graph-IsRanked : IsRanked (λ k. 0) (length new_graph.nodes) new_graph.nodes
unfolding new_graph
new_graph-IsRanked = record {
  below = λ k n h. get-nil k h;
  upward = λ k j n h m. get-nil k h;
  present = λ k j n h m. get-nil k h;
}

validate_acyclic :
    (g : TaskGraph)
    → has_cycle g ≡ some false
    → validate g ≡ some (unknown_tasks (values g.nodes) g.nodes)
unfolding validate
validate_acyclic g e = rw (e, validate) refl

-- In a graph that is built by `add_task` with fresh ids, whatever the dependencies, the search for a
-- cycle ends and finds none, so that `validate` reports exactly the dependencies on unknown tasks.
pub validate-add_tasks :
    (tasks : List NewTask)
    → are_fresh tasks new_graph ≡ true
    → let g = add_tasks tasks new_graph in
      validate g ≡ some (unknown_tasks (values g.nodes) g.nodes)
validate-add_tasks tasks f =
    validate_acyclic (add_tasks tasks new_graph)
      (has_cycle-add_tasks tasks new_graph (λ k. 0) f new_graph-IsRanked)
