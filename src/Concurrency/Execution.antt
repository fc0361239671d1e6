-- ===== src/Concurrency/Execution.antt =====
-- shared/agent/concurrency.py: in every execution, a task runs after what it depends on.
use rg_agent_engine.Base.{
  ℕ, suc, ◌≡◌, refl, ◌⊎◌, inl, inr, Key, true, false, some, arith, Bool-cases,
}
use rg_agent_engine.Base.Lists.{length, member}
use rg_agent_engine.Base.Dict.{get, put, get-put_self}
use rg_agent_engine.Concurrency.Graph.{
  new_graph, TaskNode, TaskGraph, ready, running, completed, is_completed, add, get_ready_tasks,
  set_completed, set_failed, mark_failed, block_dependents,
}
use rg_agent_engine.Concurrency.Nodes.{is_subset-member}
use rg_agent_engine.Concurrency.Blocking.{block_dependents-Blocks}
use rg_agent_engine.Concurrency.Soundness.{
  IsSound, has_started, put-IsSound, Blocks-IsSound, mark_completed-IsSound,
  get_ready_tasks-IsSound, add_task-IsSound, new_graph-IsSound,
}
use rg_agent_engine.Concurrency.Manager.{
  new_execution, ConcurrencyManager, Errors, Ending, gives, times_out, raises, set_running,
  set_node, begin_task, end_task, turn, wake, stop, Step, adds, turns, begins, ends, wakes, stops,
  Reach, start, step,
}

mark_failed-found :
    (now : ℕ) (id error : Key) (g : TaskGraph) (n : TaskNode)
    → get id g.nodes ≡ some n
    → mark_failed now id error g ≡ record g {
      nodes = block_dependents (suc (length g.nodes)) id (put id (set_failed now error n) g.nodes);
      failed_ids = add id g.failed_ids;
    }
unfolding mark_failed
mark_failed-found now id error g n e = ground arith

mark_failed-IsSound :
    (now : ℕ) (id error : Key) (g : TaskGraph) (n : TaskNode)
    → IsSound g
    → get id g.nodes ≡ some n
    → has_started n.state ≡ true
    → is_completed n.state ≡ false
    → IsSound (mark_failed now id error g)
mark_failed-IsSound now id error g n s e st c =
    let d = put id (set_failed now error n) g.nodes in
    let fuel = suc (length g.nodes) in
    let marked = put-IsSound g id n (set_failed now error n) s e st c refl in
    let s' =
      Blocks-IsSound (record g { nodes = d }) (block_dependents fuel id d) marked
        (block_dependents-Blocks fuel id d) in
    rw (mark_failed-found now id error g n e) (record { met = s'.met; finished = s'.finished })

pub set_node-found :
    (id : Key) (f : TaskNode → TaskNode) (g : TaskGraph) (n : TaskNode)
    → get id g.nodes ≡ some n
    → set_node id f g ≡ record g { nodes = put id (f n) g.nodes }
unfolding set_node
set_node-found id f g n e = ground arith

-- The state of a task that runs is set, and then its end is marked.
ends-IsSound :
    (errors : Errors) (now : ℕ) (id : Key) (ending : Ending) (m : ConcurrencyManager) (n : TaskNode)
    → IsSound m.graph
    → get id m.graph.nodes ≡ some n
    → n.state ≡ running
    → IsSound (end_task errors now id ending m).graph
unfolding end_task
ends-IsSound errors now id (gives result) m n s e r =
    let v = set_completed now result n in
    let g' = record m.graph { nodes = put id v m.graph.nodes } in
    rw (set_node-found id (set_completed now result) m.graph n e) (
      mark_completed-IsSound now id result g' v
        (put-IsSound m.graph id n v s e (ground arith) (ground arith) refl)
        (get-put_self id v m.graph.nodes) refl)
ends-IsSound errors now id times_out m n s e r =
    let v = set_failed now errors.timeout n in
    let g' = record m.graph { nodes = put id v m.graph.nodes } in
    rw (set_node-found id (set_failed now errors.timeout) m.graph n e) (
      mark_failed-IsSound now id errors.timeout g' v
        (put-IsSound m.graph id n v s e (ground arith) (ground arith) refl)
        (get-put_self id v m.graph.nodes) refl refl)
ends-IsSound errors now id (raises error) m n s e r =
    let v = set_failed now error n in
    let g' = record m.graph { nodes = put id v m.graph.nodes } in
    rw (set_node-found id (set_failed now error) m.graph n e) (
      mark_failed-IsSound now id error g' v
        (put-IsSound m.graph id n v s e (ground arith) (ground arith) refl)
        (get-put_self id v m.graph.nodes) refl refl)

begins-IsSound :
    (errors : Errors) (now : ℕ) (id : Key) (m : ConcurrencyManager) (n : TaskNode)
    → IsSound m.graph
    → get id m.graph.nodes ≡ some n
    → n.state ≡ ready
    → IsSound (begin_task errors now id m).graph
unfolding begin_task
begins-IsSound errors now id m n s e r = elim (Bool-cases m.is_running) [
  | inl on ↦
      rw (on, set_node-found id (set_running now) m.graph n e)
        (put-IsSound m.graph id n (set_running now n) s e (ground arith) (ground arith) refl)
  | inr off ↦
      rw off (mark_failed-IsSound now id errors.stopped m.graph n s e (ground arith) (ground arith))
]

pub turn-graph :
    (m : ConcurrencyManager)
    → ((turn m).graph ≡ m.graph) ⊎ ((turn m).graph ≡ (get_ready_tasks m.graph).1)
unfolding turn
turn-graph m = ground arith

turn-IsSound : (m : ConcurrencyManager) → IsSound m.graph → IsSound (turn m).graph
turn-IsSound m s = elim (turn-graph m) [
  | inl same ↦ rw same s
  | inr made ↦ rw made (get_ready_tasks-IsSound m.graph s)
]

Step-IsSound :
    {errors : Errors} {m m' : ConcurrencyManager}
    → Step errors m m'
    → IsSound m.graph
    → IsSound m'.graph
Step-IsSound (adds t m e) s = add_task-IsSound t m.graph s e
Step-IsSound (turns m e) s = turn-IsSound m s
Step-IsSound (begins now id m (n, e, r) p) s = begins-IsSound _ now id m n s e r
Step-IsSound (ends now id ending m (n, e, r)) s = ends-IsSound _ now id ending m n s e r
Step-IsSound (wakes batch id m p i d) s = unfold wake in s
Step-IsSound (stops m) s = unfold stop in s

pub Reach-IsSound :
    {errors : Errors} {m m' : ConcurrencyManager}
    → Reach errors m m'
    → IsSound m.graph
    → IsSound m'.graph
Reach-IsSound (start m' e) s = rw e s
Reach-IsSound (step m' m'' r t) s = Step-IsSound t (Reach-IsSound r s)

-- Whatever tasks are added, and in whatever order tasks are collected, begin and end: a task that
-- is READY, RUNNING, COMPLETED or FAILED depends only on tasks of the graph that are COMPLETED.
pub runs_after :
    (errors : Errors) (max_concurrent : ℕ) (m : ConcurrencyManager) (k j : Key) (n : TaskNode)
    → Reach errors (new_execution max_concurrent new_graph) m
    → get k m.graph.nodes ≡ some n
    → has_started n.state ≡ true
    → member j n.depends_on ≡ true
    → (d : TaskNode) × (get j m.graph.nodes ≡ some d) × (d.state ≡ completed)
unfolding new_execution
runs_after errors max_concurrent m k j n r e st i =
    let s = Reach-IsSound r new_graph-IsSound in
    s.finished j (is_subset-member j n.depends_on m.graph.completed_ids (s.met k n e st) i)
