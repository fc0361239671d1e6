-- ===== src/Concurrency/Graph.antt =====
-- shared/agent/concurrency.py: `TaskNode` and `TaskGraph`. A set is a list without repetition;
-- results and errors are only stored. The handler with its arguments is outside the graph.
use rg_agent_engine.Base.{
  ℕ, zero, suc, Key, Bool, true, false, ◌&&◌, Option, none, some, List, [], ◌∷◌, ◌++◌, map,
  if◌then◌else◌,
}
use rg_agent_engine.Base.Int.{ℤ, ltb_ℤ}
use rg_agent_engine.Base.Lists.{length, keep_if, member}
use rg_agent_engine.Base.Dict.{Dict, get, put, values}

pub data TaskState : Type 0 where
  pending ready running completed failed cancelled blocked : TaskState

pub record TaskNode : Type 0 where
  pub task_id : Key
  pub name : Key
  pub depends_on : List Key
  pub dependents : List Key
  pub state : TaskState
  pub result : Option Key
  pub error : Option Key
  pub started_at : Option ℕ
  pub completed_at : Option ℕ
  pub timeout_seconds : ℕ
  pub priority : ℤ

pub record TaskGraph : Type 0 where
  pub nodes : Dict TaskNode
  pub completed_ids : List Key
  pub failed_ids : List Key

unfoldable pub new_graph : TaskGraph
new_graph = record { nodes = []; completed_ids = []; failed_ids = [] }

abbrev pub is_pending : TaskState → Bool
is_pending pending = true
is_pending _ = false

abbrev pub is_completed : TaskState → Bool
is_completed completed = true
is_completed _ = false

abbrev pub is_failed : TaskState → Bool
is_failed failed = true
is_failed _ = false

-- `is_terminal`
abbrev pub is_terminal : TaskNode → Bool
is_terminal n = elim n.state [ completed ↦ true | failed ↦ true | cancelled ↦ true | _ ↦ false ]

-- `xs.issubset(ys)`
abbrev pub is_subset : List Key → List Key → Bool
is_subset [] ys = true
is_subset (x ∷ xs) ys = member x ys && is_subset xs ys

-- `xs.add(k)`
abbrev pub add : Key → List Key → List Key
add k xs = if member k xs then xs else xs ++ k ∷ []

-- `set(xs)`
unfoldable pub set_of : List Key → List Key
set_of [] = []
set_of (x ∷ xs) = add x (set_of xs)

-- `can_run`
abbrev pub can_run : List Key → TaskNode → Bool
can_run done n = is_subset n.depends_on done

-- The loop of `add_task` over the dependencies.
unfoldable pub link_one : Key → Key → Dict TaskNode → Dict TaskNode
link_one id d nodes = elim (get d nodes) [
  | none ↦ nodes
  | some n ↦ put d (record n { dependents = add id n.dependents }) nodes
]

unfoldable pub link : Key → List Key → Dict TaskNode → Dict TaskNode
link id [] nodes = nodes
link id (d ∷ deps) nodes = link id deps (link_one id d nodes)

-- What the caller of `add_task` names, with the new id.
pub record NewTask : Type 0 where
  pub id : Key
  pub name : Key
  pub depends_on : List Key
  pub timeout : ℕ
  pub priority : ℤ

abbrev pub new_node : NewTask → TaskNode
new_node t = record {
  task_id = t.id;
  name = t.name;
  depends_on = set_of t.depends_on;
  dependents = [];
  state = pending;
  result = none;
  error = none;
  started_at = none;
  completed_at = none;
  timeout_seconds = t.timeout;
  priority = t.priority;
}

-- `add_task`
unfoldable pub add_task : NewTask → TaskGraph → TaskGraph
add_task t g = record g {
  nodes = put t.id (new_node t) (link t.id (new_node t).depends_on g.nodes);
}

-- The test of the loop of `get_ready_tasks`.
abbrev pub can_start : List Key → TaskNode → Bool
can_start done n = is_pending n.state && can_run done n

abbrev pub make_ready : TaskNode → TaskNode
make_ready n = record n { state = ready }

-- What the loop does to one node.
abbrev pub visit : List Key → TaskNode → TaskNode
visit done n = if can_start done n then make_ready n else n

unfoldable pub map_values : (TaskNode → TaskNode) → Dict TaskNode → Dict TaskNode
map_values f [] = []
map_values f (e ∷ rest) = (e.0, f e.1) ∷ map_values f rest

-- `sorted(ready, key=lambda n: n.priority)`, which keeps the order of equals
unfoldable pub insert : TaskNode → List TaskNode → List TaskNode
insert n [] = n ∷ []
insert n (m ∷ rest) = if ltb_ℤ m.priority n.priority then m ∷ insert n rest else n ∷ m ∷ rest

unfoldable pub sort_by_priority : List TaskNode → List TaskNode
sort_by_priority [] = []
sort_by_priority (n ∷ rest) = insert n (sort_by_priority rest)

-- `get_ready_tasks`
unfoldable pub get_ready_tasks : TaskGraph → List TaskNode × TaskGraph
get_ready_tasks g = (
  sort_by_priority (map make_ready (keep_if (can_start g.completed_ids) (values g.nodes))),
  record g { nodes = map_values (visit g.completed_ids) g.nodes },
)

abbrev pub set_completed : ℕ → Key → TaskNode → TaskNode
set_completed now result n = record n {
  state = completed;
  result = some result;
  completed_at = some now;
}

abbrev pub set_failed : ℕ → Key → TaskNode → TaskNode
set_failed now error n = record n { state = failed; error = some error; completed_at = some now }

abbrev pub set_blocked : TaskNode → TaskNode
set_blocked n = record n { state = blocked }

-- `mark_completed`
unfoldable pub mark_completed : ℕ → Key → Key → TaskGraph → TaskGraph
mark_completed now id result g = elim (get id g.nodes) [
  | none ↦ g
  | some n ↦ record g {
    nodes = put id (set_completed now result n) g.nodes;
    completed_ids = add id g.completed_ids;
  }
]

-- One turn of the loop of `_block_dependents`, given its recursive call.
unfoldable pub block_one :
    (Key → Dict TaskNode → Dict TaskNode) → Key → Dict TaskNode → Dict TaskNode
block_one rec d nodes = elim (get d nodes) [
  | none ↦ nodes
  | some n ↦ if is_pending n.state then rec d (put d (set_blocked n) nodes) else nodes
]

unfoldable pub block_each :
    (Key → Dict TaskNode → Dict TaskNode) → List Key → Dict TaskNode → Dict TaskNode
block_each rec [] nodes = nodes
block_each rec (d ∷ deps) nodes = block_each rec deps (block_one rec d nodes)

-- `_block_dependents`, with as much fuel as recursive calls may be nested
unfoldable pub block_dependents : ℕ → Key → Dict TaskNode → Dict TaskNode
block_dependents zero id nodes = nodes
block_dependents (suc fuel) id nodes = elim (get id nodes) [
  | none ↦ nodes
  | some n ↦ block_each (block_dependents fuel) n.dependents nodes
]

-- `mark_failed`: each nested call has blocked one more pending task
unfoldable pub mark_failed : ℕ → Key → Key → TaskGraph → TaskGraph
mark_failed now id error g = elim (get id g.nodes) [
  | none ↦ g
  | some n ↦ record g {
    nodes = block_dependents (suc (length g.nodes)) id (put id (set_failed now error n) g.nodes);
    failed_ids = add id g.failed_ids;
  }
]

abbrev pub all_terminal : List TaskNode → Bool
all_terminal [] = true
all_terminal (n ∷ rest) = is_terminal n && all_terminal rest

-- `is_complete`
unfoldable pub is_complete : TaskGraph → Bool
is_complete g = all_terminal (values g.nodes)

-- `get_results`
unfoldable pub get_results : Dict TaskNode → Dict (Option Key)
get_results [] = []
get_results (e ∷ rest) =
    let found = get_results rest in
    if is_completed e.1.state then (e.0, e.1.result) ∷ found else found

-- `get_errors`
unfoldable pub get_errors : Dict TaskNode → Dict Key
get_errors [] = []
get_errors (e ∷ rest) =
    let found = get_errors rest in
    if is_failed e.1.state
    then elim e.1.error [ none ↦ found | some x ↦ (e.0, x) ∷ found ]
    else found
