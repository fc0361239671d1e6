-- ===== src/Concurrency/Manager.antt =====
-- shared/agent/concurrency.py: `ConcurrencyManager` with one graph in execution, and the steps of
-- its coroutines between two awaits.
use rg_agent_engine.Base.{
  ℕ, ◌+◌, ◌-◌, ◌<◌, ◌≡◌, Key, Bool, true, false, not, ◌&&◌, ◌||◌, none, some, List, [], ◌∷◌, map,
  if◌then◌else◌,
}
use rg_agent_engine.Base.Lists.{member, keep_if}
use rg_agent_engine.Base.Dict.{get, put}
use rg_agent_engine.Concurrency.Graph.{
  TaskState, TaskNode, TaskGraph, NewTask, ready, running, is_terminal, add, add_task,
  get_ready_tasks, mark_completed, mark_failed, set_completed, set_failed, is_complete,
}

-- Where `execute_graph` stands: at the top of its loop, at `asyncio.wait` for one of these tasks,
-- or past the loop.
pub data Phase : Type 0 where
  looping : Phase
  waiting : List Key → Phase
  returned : Phase

-- The permits held are those taken from the semaphore. `running_tasks` has the ids of the tasks.
pub record ConcurrencyManager : Type 0 where
  pub max_concurrent : ℕ
  pub permits_held : ℕ
  pub is_running : Bool
  pub running_tasks : List Key
  pub total_tasks_executed : ℕ
  pub total_tasks_failed : ℕ
  pub graph : TaskGraph
  pub phase : Phase

-- `__init__` and `start`, and the entry of `execute_graph`
unfoldable pub new_execution : ℕ → TaskGraph → ConcurrencyManager
new_execution max_concurrent graph = record {
  max_concurrent = max_concurrent;
  permits_held = 0;
  is_running = true;
  running_tasks = [];
  total_tasks_executed = 0;
  total_tasks_failed = 0;
  graph = graph;
  phase = looping;
}

-- How the handler of a task ends: with a result, by the time-out, or by an exception.
pub data Ending : Type 0 where
  gives : Key → Ending
  times_out : Ending
  raises : Key → Ending

-- The errors that `execute_task` makes itself.
pub record Errors : Type 0 where
  pub stopped : Key
  pub timeout : Key

abbrev pub set_running : ℕ → TaskNode → TaskNode
set_running now n = record n { state = running; started_at = some now }

unfoldable pub set_node : Key → (TaskNode → TaskNode) → TaskGraph → TaskGraph
set_node id f g = elim (get id g.nodes) [
  | none ↦ g
  | some n ↦ record g { nodes = put id (f n) g.nodes }
]

-- `_execute_graph_task` up to the call of the handler: `execute_task` has taken a permit. A manager
-- that is stopped raises, the permit is given back, and the graph marks the task as failed.
unfoldable pub begin_task : Errors → ℕ → Key → ConcurrencyManager → ConcurrencyManager
begin_task errors now id m =
    if m.is_running
    then record m {
      permits_held = m.permits_held + 1;
      graph = set_node id (set_running now) m.graph;
    }
    else record m { graph = mark_failed now id errors.stopped m.graph }

-- The rest of `execute_task` and of `_execute_graph_task`, once the handler has ended.
unfoldable pub end_task : Errors → ℕ → Key → Ending → ConcurrencyManager → ConcurrencyManager
end_task errors now id (gives result) m = record m {
  permits_held = m.permits_held - 1;
  total_tasks_executed = m.total_tasks_executed + 1;
  graph = mark_completed now id result (set_node id (set_completed now result) m.graph);
}
end_task errors now id times_out m = record m {
  permits_held = m.permits_held - 1;
  total_tasks_failed = m.total_tasks_failed + 1;
  graph = mark_failed now id errors.timeout (set_node id (set_failed now errors.timeout) m.graph);
}
end_task errors now id (raises error) m = record m {
  permits_held = m.permits_held - 1;
  total_tasks_failed = m.total_tasks_failed + 1;
  graph = mark_failed now id error (set_node id (set_failed now error) m.graph);
}

abbrev pub ids_of : List TaskNode → List Key
ids_of = map (λ (n : TaskNode). n.task_id)

abbrev pub add_all : List Key → List Key → List Key
add_all [] xs = xs
add_all (k ∷ ks) xs = add_all ks (add k xs)

-- One turn of the loop of `execute_graph`, up to its next await. Where no task is ready, it sleeps
-- and comes back to the top, or leaves the loop if no task is running.
unfoldable pub turn : ConcurrencyManager → ConcurrencyManager
turn m =
    let (ready_tasks, graph) = get_ready_tasks m.graph in
    if is_complete m.graph || not m.is_running
    then record m { phase = returned }
    else elim ready_tasks [
      | [] ↦ elim m.running_tasks [
        | [] ↦ record m { graph = graph; phase = returned }
        | _ ∷ _ ↦ record m { graph = graph }
      ]
      | n ∷ rest ↦ record m {
        graph = graph;
        running_tasks = add_all (ids_of (n ∷ rest)) m.running_tasks;
        phase = waiting (ids_of (n ∷ rest));
      }
    ]

-- Whether the asyncio task of the node is done: its coroutine ends as the node becomes terminal.
abbrev pub is_done : TaskGraph → Key → Bool
is_done g id = elim (get id g.nodes) [ none ↦ false | some n ↦ is_terminal n ]

-- `asyncio.wait` returns: the tasks of the batch that are done leave_search `running_tasks`.
unfoldable pub wake : List Key → ConcurrencyManager → ConcurrencyManager
wake batch m = record m {
  running_tasks = keep_if (λ id. not (member id batch && is_done m.graph id)) m.running_tasks;
  phase = looping;
}

-- The flag that `stop` clears. The cancellation of what runs after its time-out is left out.
unfoldable pub stop : ConcurrencyManager → ConcurrencyManager
stop m = record m { is_running = false }

-- A node whose coroutine waits for a permit, and one whose handler runs.
abbrev pub HasState : Key → TaskState → ConcurrencyManager → Type 0
HasState id s m = (n : TaskNode) × (get id m.graph.nodes ≡ some n) × (n.state ≡ s)

pub data Step (errors : Errors) : ConcurrencyManager → ConcurrencyManager → Type 0 where
  adds :
      (t : NewTask) (m : ConcurrencyManager)
      → get t.id m.graph.nodes ≡ none
      → Step errors m (record m { graph = add_task t m.graph })
  turns : (m : ConcurrencyManager) → m.phase ≡ looping → Step errors m (turn m)
  begins :
      (now : ℕ) (id : Key) (m : ConcurrencyManager)
      → HasState id ready m
      → m.permits_held < m.max_concurrent
      → Step errors m (begin_task errors now id m)
  ends :
      (now : ℕ) (id : Key) (ending : Ending) (m : ConcurrencyManager)
      → HasState id running m
      → Step errors m (end_task errors now id ending m)
  wakes :
      (batch : List Key) (id : Key) (m : ConcurrencyManager)
      → m.phase ≡ waiting batch
      → member id batch ≡ true
      → is_done m.graph id ≡ true
      → Step errors m (wake batch m)
  stops : (m : ConcurrencyManager) → Step errors m (stop m)

-- What execution steps lead to, the last step outermost.
pub data Reach (errors : Errors) (m : ConcurrencyManager) : ConcurrencyManager → Type 0 where
  start : (m' : ConcurrencyManager) → m' ≡ m → Reach errors m m'
  step : (m' m'' : ConcurrencyManager) → Reach errors m m' → Step errors m' m'' → Reach errors m m''
