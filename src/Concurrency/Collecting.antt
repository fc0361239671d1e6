-- ===== src/Concurrency/Collecting.antt =====
-- shared/agent/concurrency.py: what `get_ready_tasks` collects, and in which order.
use mathlib.Core.List.{Perm}
use mathlib.Core.List.Perm
use rg_agent_engine.Base.{
  ◌≡◌, refl, inl, inr, Bool, true, not, ◌&&◌, List, [], ◌∷◌, map, arith, Bool-cases,
}
use rg_agent_engine.Base.Int.{ltb_ℤ}
use rg_agent_engine.Base.Lists.{keep_if}
use rg_agent_engine.Base.Dict.{Dict, values}
use rg_agent_engine.Concurrency.Graph.{
  TaskNode, TaskGraph, can_start, make_ready, visit, insert, map_values, sort_by_priority,
  get_ready_tasks,
}

-- Each task comes before those of a higher priority number.
abbrev pub is_sorted : List TaskNode → Bool
is_sorted [] = true
is_sorted (n ∷ []) = true
is_sorted (n ∷ m ∷ rest) = not (ltb_ℤ m.priority n.priority) && is_sorted (m ∷ rest)

insert-sorted :
    (n : TaskNode) (l : List TaskNode) → is_sorted l ≡ true → is_sorted (insert n l) ≡ true
unfolding insert
insert-sorted n [] h = refl
insert-sorted n (m ∷ []) h = ground arith
insert-sorted n (m ∷ k ∷ l) h = ground (arith, insert-sorted n (k ∷ l))

insert-Perm : (n : TaskNode) (l : List TaskNode) → Perm (insert n l) (n ∷ l)
unfolding insert
insert-Perm n [] = Perm.refl (n ∷ [])
insert-Perm n (m ∷ l) = elim (Bool-cases (ltb_ℤ m.priority n.priority)) [
  | inl e ↦ rw e (Perm.trans (Perm.cons m (insert-Perm n l)) (Perm.swap n m l))
  | inr e ↦ rw e (Perm.refl (n ∷ m ∷ l))
]

sort_by_priority_lem :
    (l : List TaskNode) → Perm (sort_by_priority l) l × (is_sorted (sort_by_priority l) ≡ true)
unfolding sort_by_priority
sort_by_priority_lem [] = (Perm.refl [], refl)
sort_by_priority_lem (n ∷ l) =
    let (perm, sorted) = sort_by_priority_lem l in
    (
      Perm.trans (insert-Perm n (sort_by_priority l)) (Perm.cons n perm),
      insert-sorted n (sort_by_priority l) sorted,
    )

values-map_values :
    (f : TaskNode → TaskNode) (d : Dict TaskNode) → values (map_values f d) ≡ map f (values d)
unfolding map_values
values-map_values f [] = refl
values-map_values f (e ∷ d) = rw (values-map_values f d) refl

-- The call returns the pending tasks whose dependencies are all completed, each once and now READY,
-- in the order of their priorities; in the graph these tasks become READY, the others stay, and
-- the table keeps its order.
pub get_ready_tasks_lem :
    (g : TaskGraph)
    → let (tasks, g') = get_ready_tasks g in
      Perm tasks (map make_ready (keep_if (can_start g.completed_ids) (values g.nodes)))
      × (is_sorted tasks ≡ true)
      × (values g'.nodes ≡ map (visit g.completed_ids) (values g.nodes))
      × (g'.completed_ids ≡ g.completed_ids)
unfolding get_ready_tasks
get_ready_tasks_lem g =
    let found = map make_ready (keep_if (can_start g.completed_ids) (values g.nodes)) in
    let (perm, sorted) = sort_by_priority_lem found in
    (perm, sorted, values-map_values (visit g.completed_ids) g.nodes, refl)
