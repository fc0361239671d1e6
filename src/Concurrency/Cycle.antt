-- ===== src/Concurrency/Cycle.antt =====
-- shared/agent/concurrency.py: `validate` and the search for a cycle.
use rg_agent_engine.Base.{
  ℕ, zero, suc, Key, Bool, true, false, not, Option, none, some, List, [], ◌∷◌, ◌++◌, if◌then◌else◌,
}
use rg_agent_engine.Base.Lists.{length, member, remove_first}
use rg_agent_engine.Base.Dict.{Dict, get, has_key, values}
use rg_agent_engine.Concurrency.Graph.{TaskNode, TaskGraph, NewTask, add, add_task}

-- The two sets of `_has_cycle`.
pub record Search : Type 0 where
  pub visited : List Key
  pub rec_stack : List Key

-- What a search gives: whether a cycle was found, and the sets; none where the fuel ran out.
abbrev pub Found : Type 0
Found = Option (Bool × Search)

-- `visited.add(id)`, `rec_stack.add(id)`
abbrev pub enter_search : Key → Search → Search
enter_search id s = record { visited = add id s.visited; rec_stack = add id s.rec_stack }

-- `rec_stack.remove(id)`, unless a cycle was found
abbrev pub leave_search : Key → Found → Found
leave_search id none = none
leave_search id (some (true, s)) = some (true, s)
leave_search id (some (false, s)) =
    some (false, record s { rec_stack = remove_first id s.rec_stack })

-- The next turn of a loop, unless a cycle was found.
abbrev pub and_then : Found → (Search → Found) → Found
and_then none next = none
and_then (some (true, s)) next = some (true, s)
and_then (some (false, s)) next = next s

-- One turn of the loop over the dependents, given the recursive call.
abbrev pub look_at : (Key → Search → Found) → Key → Search → Found
look_at rec d s =
    if not (member d s.visited)
    then rec d s
    else if member d s.rec_stack
    then some (true, s)
    else some (false, s)

unfoldable pub look_at_all : (Key → Search → Found) → List Key → Search → Found
look_at_all rec [] s = some (false, s)
look_at_all rec (d ∷ deps) s = and_then (look_at rec d s) (look_at_all rec deps)

-- `dfs`
unfoldable pub dfs : Dict TaskNode → ℕ → Key → Search → Found
dfs nodes zero id s = none
dfs nodes (suc fuel) id s = leave_search id (elim (get id nodes) [
  | none ↦ some (false, enter_search id s)
  | some n ↦ look_at_all (dfs nodes fuel) n.dependents (enter_search id s)
])

-- The loop over the tasks of the graph.
unfoldable pub search_all : (Key → Search → Found) → Dict TaskNode → Search → Found
search_all rec [] s = some (false, s)
search_all rec (e ∷ rest) s =
    and_then (if not (member e.0 s.visited) then rec e.0 s else some (false, s))
      (search_all rec rest)

-- `_has_cycle`: a path is no longer than the graph has tasks
unfoldable pub has_cycle : TaskGraph → Option Bool
has_cycle g =
    let nothing : Search = record { visited = []; rec_stack = [] } in
    elim (search_all (dfs g.nodes (suc (length g.nodes))) g.nodes nothing) [
      | none ↦ none
      | some (found, s) ↦ some found
    ]

-- The messages of `validate`: the name of a task with the dependency that is unknown, or a cycle.
pub data GraphError : Type 0 where
  unknown_task : Key → Key → GraphError
  cycle : GraphError

abbrev pub unknown_of : Key → List Key → Dict TaskNode → List GraphError
unknown_of name [] nodes = []
unknown_of name (d ∷ deps) nodes =
    let rest = unknown_of name deps nodes in
    if has_key d nodes then rest else unknown_task name d ∷ rest

unfoldable pub unknown_tasks : List TaskNode → Dict TaskNode → List GraphError
unknown_tasks [] nodes = []
unknown_tasks (n ∷ rest) nodes = unknown_of n.name n.depends_on nodes ++ unknown_tasks rest nodes

-- `validate`
unfoldable pub validate : TaskGraph → Option (List GraphError)
validate g = elim (has_cycle g) [
  | none ↦ none
  | some found ↦
      let errors = unknown_tasks (values g.nodes) g.nodes in
      some (if found then errors ++ cycle ∷ [] else errors)
]

-- A graph as its callers build it.
unfoldable pub add_tasks : List NewTask → TaskGraph → TaskGraph
add_tasks [] g = g
add_tasks (t ∷ tasks) g = add_tasks tasks (add_task t g)

-- Each id is new where it is added, as those of `uuid4` are.
unfoldable pub are_fresh : List NewTask → TaskGraph → Bool
are_fresh [] g = true
are_fresh (t ∷ tasks) g =
    let rest = are_fresh tasks (add_task t g) in if has_key t.id g.nodes then false else rest
