-- ===== src/Concurrency/Permits.antt =====
-- shared/agent/concurrency.py: how many tasks run at once.
use rg_agent_engine.Base.{
  ℕ, suc, ◌+◌, ◌≤◌, ◌<◌, ◌≡◌, refl, Key, Bool, true, false, none, some, arith,
}
use rg_agent_engine.Base.Lists.{length}
use rg_agent_engine.Base.Dict.{Dict, get, put, get-put_self}
use rg_agent_engine.Concurrency.Graph.{
  TaskNode, TaskGraph, NewTask, new_graph, ready, running, add, link, new_node, add_task, visit,
  get_ready_tasks, set_completed, set_failed, mark_completed, mark_failed, block_dependents,
}
use rg_agent_engine.Concurrency.Nodes.{
  count_if, count_if-put, count_if-put_new, count_if-map_values, bit,
}
use rg_agent_engine.Concurrency.Links.{Links, unchanged, relink, link-Links, Links-missing}
use rg_agent_engine.Concurrency.Blocking.{Blocks-count, block_dependents-Blocks}
use rg_agent_engine.Concurrency.Soundness.{mark_completed-found}
use rg_agent_engine.Concurrency.Failure.{mark_failed-found}
use rg_agent_engine.Concurrency.Manager.{
  ConcurrencyManager, new_execution, Errors, Ending, gives, times_out, raises, set_running,
  set_node, begin_task, end_task, turn, wake, stop, Step, adds, turns, begins, ends, wakes, stops,
  Reach, start, step,
}
use rg_agent_engine.Concurrency.Execution.{set_node-found}

-- The handler of the task runs.
abbrev pub is_on : TaskNode → Bool
is_on n = elim n.state [ running ↦ true | _ ↦ false ]

abbrev pub count_on : TaskGraph → ℕ
count_on g = count_if is_on g.nodes

Links-count :
    {id : Key} (d d' : Dict TaskNode) → Links id d d' → count_if is_on d' ≡ count_if is_on d
Links-count {id} d d' (unchanged _ _ e) = rw e refl
Links-count {id} d d' (relink k n _ _ e l) = ground (
  arith,
  Links-count _ d' l,
  count_if-put is_on k n (record n { dependents = add id n.dependents }) d,
)

add_task-count :
    (t : NewTask) (g : TaskGraph) → get t.id g.nodes ≡ none → count_on (add_task t g) ≡ count_on g
unfolding add_task
add_task-count t g e =
    let d = link t.id (new_node t).depends_on g.nodes in
    let links = link-Links t.id (new_node t).depends_on g.nodes in
    ground (
      arith,
      Links-count g.nodes d links,
      count_if-put_new is_on t.id (new_node t) d,
      Links-missing t.id g.nodes d links e,
    )

get_ready_tasks-count : (g : TaskGraph) → count_on (get_ready_tasks g).1 ≡ count_on g
unfolding get_ready_tasks
get_ready_tasks-count g =
    count_if-map_values is_on (visit g.completed_ids) g.nodes (λ n. ground arith)

set_node-count :
    (id : Key) (f : TaskNode → TaskNode) (g : TaskGraph) (n : TaskNode)
    → get id g.nodes ≡ some n
    → count_on (set_node id f g) + bit (is_on n) ≡ count_on g + bit (is_on (f n))
set_node-count id f g n e = rw (set_node-found id f g n e) (count_if-put is_on id n (f n) g.nodes e)

set_node-get :
    (id : Key) (f : TaskNode → TaskNode) (g : TaskGraph) (n : TaskNode)
    → get id g.nodes ≡ some n
    → get id (set_node id f g).nodes ≡ some (f n)
set_node-get id f g n e = rw (set_node-found id f g n e) (get-put_self id (f n) g.nodes)

mark_completed-count :
    (now : ℕ) (id result : Key) (g : TaskGraph) (n : TaskNode)
    → get id g.nodes ≡ some n
    → is_on n ≡ false
    → count_on (mark_completed now id result g) ≡ count_on g
mark_completed-count now id result g n e off =
    rw (mark_completed-found now id result g n e)
      (ground (arith, count_if-put is_on id n (set_completed now result n) g.nodes e))

mark_failed-count :
    (now : ℕ) (id error : Key) (g : TaskGraph) (n : TaskNode)
    → get id g.nodes ≡ some n
    → is_on n ≡ false
    → count_on (mark_failed now id error g) ≡ count_on g
mark_failed-count now id error g n e off =
    let d = put id (set_failed now error n) g.nodes in
    let fuel = suc (length g.nodes) in
    rw (mark_failed-found now id error g n e) (
      ground (
        arith,
        Blocks-count is_on d (block_dependents fuel id d) (λ v p. ground arith)
            (block_dependents-Blocks fuel id d),
        count_if-put is_on id n (set_failed now error n) g.nodes e,
      ))

-- As many permits are held as handlers run, and no more than there are.
pub record IsBounded (limit : ℕ) (m : ConcurrencyManager) : Type 0 where
  pub held : count_on m.graph ≡ m.permits_held
  pub within : m.permits_held ≤ limit
  pub limited : m.max_concurrent ≡ limit

-- A task that runs ends: its state is set, and then its end is marked.
module _ (now : ℕ) (id : Key) (g : TaskGraph) (n : TaskNode) (e : get id g.nodes ≡ some n)
    (on : n.state ≡ running) where
  completes-count :
      (result : Key)
      → count_on (mark_completed now id result (set_node id (set_completed now result) g)) + 1
        ≡ count_on g
  completes-count result =
      let f = set_completed now result in
      ground (
        arith,
        set_node-count id f g n e,
        mark_completed-count now id result (set_node id f g) (f n) (set_node-get id f g n e) refl,
      )

  fails-count :
      (error : Key)
      → count_on (mark_failed now id error (set_node id (set_failed now error) g)) + 1 ≡ count_on g
  fails-count error =
      let f = set_failed now error in
      ground (
        arith,
        set_node-count id f g n e,
        mark_failed-count now id error (set_node id f g) (f n) (set_node-get id f g n e) refl,
      )

ends-IsBounded :
    (limit : ℕ) (errors : Errors) (now : ℕ) (id : Key) (ending : Ending) (m : ConcurrencyManager)
    (n : TaskNode)
    → IsBounded limit m
    → get id m.graph.nodes ≡ some n
    → n.state ≡ running
    → IsBounded limit (end_task errors now id ending m)
unfolding end_task
ends-IsBounded limit errors now id (gives result) m n b e r =
    ground (arith, completes-count now id m.graph n e r result)
ends-IsBounded limit errors now id times_out m n b e r =
    ground (arith, fails-count now id m.graph n e r errors.timeout)
ends-IsBounded limit errors now id (raises error) m n b e r =
    ground (arith, fails-count now id m.graph n e r error)

begins-IsBounded :
    (limit : ℕ) (errors : Errors) (now : ℕ) (id : Key) (m : ConcurrencyManager) (n : TaskNode)
    → IsBounded limit m
    → get id m.graph.nodes ≡ some n
    → n.state ≡ ready
    → m.permits_held < m.max_concurrent
    → IsBounded limit (begin_task errors now id m)
unfolding begin_task
begins-IsBounded limit errors now id m n b e r p = ground (
  arith,
  set_node-count id (set_running now) m.graph n e,
  mark_failed-count now id errors.stopped m.graph n e,
)

turn-IsBounded : (limit : ℕ) (m : ConcurrencyManager) → IsBounded limit m → IsBounded limit (turn m)
unfolding turn
turn-IsBounded limit m b = ground (arith, get_ready_tasks-count m.graph)

Step-IsBounded :
    {limit : ℕ} {errors : Errors} {m m' : ConcurrencyManager}
    → Step errors m m'
    → IsBounded limit m
    → IsBounded limit m'
Step-IsBounded (adds t m e) b = ground (arith, add_task-count t m.graph e)
Step-IsBounded (turns m e) b = turn-IsBounded _ m b
Step-IsBounded (begins now id m (n, e, r) p) b = begins-IsBounded _ _ now id m n b e r p
Step-IsBounded (ends now id ending m (n, e, r)) b = ends-IsBounded _ _ now id ending m n b e r
Step-IsBounded (wakes batch id m p i d) b =
    unfold wake in record { held = b.held; within = b.within; limited = b.limited }
Step-IsBounded (stops m) b =
    unfold stop in record { held = b.held; within = b.within; limited = b.limited }

Reach-IsBounded :
    {limit : ℕ} {errors : Errors} {m m' : ConcurrencyManager}
    → Reach errors m m'
    → IsBounded limit m
    → IsBounded limit m'
Reach-IsBounded (start m' e) b = rw e b
Reach-IsBounded (step m' m'' r t) b = Step-IsBounded t (Reach-IsBounded r b)

new_execution-IsBounded : (limit : ℕ) → IsBounded limit (new_execution limit new_graph)
unfolding new_execution new_graph count_if
new_execution-IsBounded limit = record { held = refl; within = omega arith; limited = refl }

-- Whatever tasks are added and whatever order their steps take, the tasks that are RUNNING are as
-- many as the permits taken from the semaphore, and at most `max_concurrent`.
pub running_bound :
    (errors : Errors) (max_concurrent : ℕ) (m : ConcurrencyManager)
    → Reach errors (new_execution max_concurrent new_graph) m
    → (count_on m.graph ≡ m.permits_held) × (count_on m.graph ≤ max_concurrent)
running_bound errors max_concurrent m r =
    let b = Reach-IsBounded r (new_execution-IsBounded max_concurrent) in
    (b.held, omega (arith, b.held, b.within))
