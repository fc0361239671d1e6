-- ===== src/Concurrency/Tests.antt =====
-- shared/agent/concurrency.py: executions of a graph of three tasks, the third after the second.
use rg_agent_engine.Base.{◌-◌, ◌≤◌, ◌≡◌, refl, ◌⊎◌, Key, true, some, List, [], ◌∷◌, arith, map}
use rg_agent_engine.Base.Int.{pos}
use rg_agent_engine.Base.Dict.{get, put, values}
use rg_agent_engine.Concurrency.Graph.{
  TaskNode, TaskGraph, NewTask, new_node, completed, new_graph, add_task, link, link_one, set_of,
  get_ready_tasks, mark_completed, mark_failed, block_dependents, block_each, block_one, map_values,
  insert, sort_by_priority, is_complete, make_ready, set_blocked,
}
use rg_agent_engine.Concurrency.Cycle.{
  validate, has_cycle, search_all, dfs, look_at_all, unknown_task, unknown_tasks, add_tasks,
  are_fresh,
}
use rg_agent_engine.Concurrency.Growth.{validate-add_tasks}
use rg_agent_engine.Concurrency.Manager.{
  ConcurrencyManager, new_execution, Errors, gives, raises, set_node, begin_task, end_task, turn,
  wake, stop, Step, adds, turns, begins, ends, wakes, Reach, start, step,
}
use rg_agent_engine.Concurrency.Failure.{Outcome, mark_failed_lem}
use rg_agent_engine.Concurrency.Execution.{runs_after}
use rg_agent_engine.Concurrency.Permits.{count_on, running_bound}
use rg_agent_engine.Concurrency.Stuck.{IsStuck, stuck_forever}

abbrev errors : Errors
errors = record { stopped = 90; timeout = 91 }

abbrev task : Key → List Key → NewTask
task id deps = record {
  id = id;
  name = id;
  depends_on = deps;
  timeout = 300;
  priority = pos (100 - id);
}

graph : TaskGraph
graph = add_task (task 3 (2 ∷ [])) (add_task (task 2 []) (add_task (task 1 []) new_graph))

by_priority : map (λ (n : TaskNode). n.task_id) (get_ready_tasks graph).0 ≡ 2 ∷ 1 ∷ []
unfolding graph add_task new_graph link link_one set_of get put get_ready_tasks sort_by_priority
    insert
by_priority = refl

abbrev node_2 : TaskNode
node_2 = record (new_node (task 2 [])) { dependents = 3 ∷ [] }

graph_2 : get 3 graph.nodes ≡ some (new_node (task 3 (2 ∷ [])))
unfolding graph add_task new_graph link link_one set_of get put
graph_2 = refl

failed_2 : get 3 (mark_failed 50 2 77 graph).nodes ≡ some (set_blocked (new_node (task 3 (2 ∷ []))))
unfolding graph add_task new_graph link link_one set_of get put mark_failed block_dependents
    block_each block_one
failed_2 = refl

mark_failed_lem_example :
    Outcome 50 2 77 3
      (new_node (task 3 (2 ∷ [])))
      (set_blocked (new_node (task 3 (2 ∷ []))))
      (mark_failed 50 2 77 graph).nodes
mark_failed_lem_example =
    mark_failed_lem 50 2 77 3 graph (new_node (task 3 (2 ∷ [])))
      (set_blocked (new_node (task 3 (2 ∷ [])))) graph_2 failed_2

-- The first task ends, the loop comes back to its top, and then the second task fails.
abbrev m0 : ConcurrencyManager
m0 = new_execution 2 new_graph

abbrev m1 : ConcurrencyManager
m1 = record m0 { graph = add_task (task 1 []) m0.graph }

abbrev m2 : ConcurrencyManager
m2 = record m1 { graph = add_task (task 2 []) m1.graph }

abbrev m3 : ConcurrencyManager
m3 = record m2 { graph = add_task (task 3 (2 ∷ [])) m2.graph }

abbrev m4 : ConcurrencyManager
m4 = turn m3

abbrev m5 : ConcurrencyManager
m5 = begin_task errors 10 1 m4

abbrev m6 : ConcurrencyManager
m6 = begin_task errors 11 2 m5

abbrev m7 : ConcurrencyManager
m7 = end_task errors 20 1 (gives 5) m6

abbrev m8 : ConcurrencyManager
m8 = wake (2 ∷ 1 ∷ []) m7

abbrev m9 : ConcurrencyManager
m9 = end_task errors 30 2 (raises 77) m8

to_m1 : Step errors m0 m1
unfolding new_execution new_graph add_task link link_one set_of get put turn get_ready_tasks
    sort_by_priority insert map_values begin_task end_task set_node mark_completed mark_failed
    block_dependents block_each block_one wake is_complete
to_m1 = adds (task 1 []) m0 refl

to_m2 : Step errors m1 m2
unfolding new_execution new_graph add_task link link_one set_of get put turn get_ready_tasks
    sort_by_priority insert map_values begin_task end_task set_node mark_completed mark_failed
    block_dependents block_each block_one wake is_complete
to_m2 = adds (task 2 []) m1 refl

to_m3 : Step errors m2 m3
unfolding new_execution new_graph add_task link link_one set_of get put turn get_ready_tasks
    sort_by_priority insert map_values begin_task end_task set_node mark_completed mark_failed
    block_dependents block_each block_one wake is_complete
to_m3 = adds (task 3 (2 ∷ [])) m2 refl

to_m4 : Step errors m3 m4
unfolding new_execution new_graph add_task link link_one set_of get put turn get_ready_tasks
    sort_by_priority insert map_values begin_task end_task set_node mark_completed mark_failed
    block_dependents block_each block_one wake is_complete
to_m4 = turns m3 refl

to_m5 : Step errors m4 m5
unfolding new_execution new_graph add_task link link_one set_of get put turn get_ready_tasks
    sort_by_priority insert map_values begin_task end_task set_node mark_completed mark_failed
    block_dependents block_each block_one wake is_complete
to_m5 = begins 10 1 m4 (_, refl, refl) (omega arith)

to_m6 : Step errors m5 m6
unfolding new_execution new_graph add_task link link_one set_of get put turn get_ready_tasks
    sort_by_priority insert map_values begin_task end_task set_node mark_completed mark_failed
    block_dependents block_each block_one wake is_complete
to_m6 = begins 11 2 m5 (_, refl, refl) (omega arith)

to_m7 : Step errors m6 m7
unfolding new_execution new_graph add_task link link_one set_of get put turn get_ready_tasks
    sort_by_priority insert map_values begin_task end_task set_node mark_completed mark_failed
    block_dependents block_each block_one wake is_complete
to_m7 = ends 20 1 (gives 5) m6 (_, refl, refl)

to_m8 : Step errors m7 m8
unfolding new_execution new_graph add_task link link_one set_of get put turn get_ready_tasks
    sort_by_priority insert map_values begin_task end_task set_node mark_completed mark_failed
    block_dependents block_each block_one wake is_complete
to_m8 = wakes (2 ∷ 1 ∷ []) 1 m7 refl refl refl

to_m9 : Step errors m8 m9
unfolding new_execution new_graph add_task link link_one set_of get put turn get_ready_tasks
    sort_by_priority insert map_values begin_task end_task set_node mark_completed mark_failed
    block_dependents block_each block_one wake is_complete
to_m9 = ends 30 2 (raises 77) m8 (_, refl, refl)

reached_8 : Reach errors m0 m8
reached_8 =
    step m7 m8
      (step m6 m7
        (step m5 m6
          (step m4 m5
            (step m3 m4 (step m2 m3 (step m1 m2 (step m0 m1 (start m0 refl) to_m1) to_m2) to_m3)
              to_m4)
            to_m5)
          to_m6)
        to_m7)
      to_m8

reached_9 : Reach errors m0 m9
reached_9 = step m8 m9 reached_8 to_m9

running_bound_example : (count_on m6.graph ≡ m6.permits_held) × (count_on m6.graph ≤ 2)
running_bound_example = running_bound errors 2 m6 reached_6
  where
    reached_6 : Reach errors m0 m6
    reached_6 =
        step m5 m6
          (step m4 m5
            (step m3 m4 (step m2 m3 (step m1 m2 (step m0 m1 (start m0 refl) to_m1) to_m2) to_m3)
              to_m4)
            to_m5)
          to_m6

-- The second task ends well instead, and the third is collected.
abbrev n9 : ConcurrencyManager
n9 = end_task errors 30 2 (gives 6) m8

abbrev n10 : ConcurrencyManager
n10 = turn n9

to_n9 : Step errors m8 n9
unfolding new_execution new_graph add_task link link_one set_of get put turn get_ready_tasks
    sort_by_priority insert map_values begin_task end_task set_node mark_completed mark_failed
    block_dependents block_each block_one wake is_complete
to_n9 = ends 30 2 (gives 6) m8 (_, refl, refl)

to_n10 : Step errors n9 n10
unfolding new_execution new_graph add_task link link_one set_of get put turn get_ready_tasks
    sort_by_priority insert map_values begin_task end_task set_node mark_completed mark_failed
    block_dependents block_each block_one wake is_complete
to_n10 = turns n9 refl

abbrev collected : TaskNode
collected = make_ready (new_node (task 3 (2 ∷ [])))

collected_3 : get 3 n10.graph.nodes ≡ some collected
unfolding new_execution new_graph add_task link link_one set_of get put turn get_ready_tasks
    sort_by_priority insert map_values begin_task end_task set_node mark_completed mark_failed
    block_dependents block_each block_one wake is_complete
collected_3 = refl

runs_after_example : (d : TaskNode) × (get 2 n10.graph.nodes ≡ some d) × (d.state ≡ completed)
unfolding set_of
runs_after_example =
    runs_after errors 2 n10 3 2 collected (step n9 n10 (step m8 n9 reached_8 to_n9) to_n10)
      collected_3 refl refl

m9-IsStuck : IsStuck m9
unfolding new_execution new_graph add_task link link_one set_of get put turn get_ready_tasks
    sort_by_priority insert map_values begin_task end_task set_node mark_completed mark_failed
    block_dependents block_each block_one wake is_complete
m9-IsStuck = record {
  in_loop = refl;
  on = refl;
  incomplete = refl;
  idle = refl;
  unready = refl;
  left = λ e. cc;
}

back_to_top : Step errors m9 (turn m9)
unfolding new_execution new_graph add_task link link_one set_of get put turn get_ready_tasks
    sort_by_priority insert map_values begin_task end_task set_node mark_completed mark_failed
    block_dependents block_each block_one wake is_complete
back_to_top = turns m9 refl

stuck_forever_example :
    (turn m9 ≡ m9)
    ⊎ ((turn m9 ≡ stop m9)
        ⊎ ((t : NewTask) × (turn m9 ≡ record m9 { graph = add_task t m9.graph })))
stuck_forever_example = stuck_forever errors m9 (turn m9) m9-IsStuck back_to_top

-- The third task depends on one that is not there.
abbrev added : List NewTask
added = task 1 [] ∷ task 2 [] ∷ task 3 (2 ∷ 9 ∷ []) ∷ []

added_fresh : are_fresh added new_graph ≡ true
unfolding are_fresh new_graph add_task link link_one set_of get put
added_fresh = refl

unknown_reported : validate (add_tasks added new_graph) ≡ some (unknown_task 3 9 ∷ [])
unfolding validate has_cycle search_all dfs look_at_all unknown_tasks add_tasks new_graph add_task
    link link_one set_of get put
unknown_reported = refl

validate-add_tasks_example :
    let g = add_tasks added new_graph in validate g ≡ some (unknown_tasks (values g.nodes) g.nodes)
validate-add_tasks_example = validate-add_tasks added added_fresh
