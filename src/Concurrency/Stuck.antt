-- ===== src/Concurrency/Stuck.antt =====
-- shared/agent/concurrency.py: an execution that waits for tasks that are done.
use rg_agent_engine.Base.{
  ◌≡◌, refl, ◌≢◌, ◌⊎◌, inl, inr, Key, Bool, true, false, not, ◌&&◌, some, List, [], ◌∷◌, map, arith,
}
use rg_agent_engine.Base.Lists.{keep_if}
use rg_agent_engine.Base.Dict.{Dict, get, values}
use rg_agent_engine.Concurrency.Graph.{
  TaskNode, TaskGraph, NewTask, ready, running, add_task, can_start, visit, map_values,
  sort_by_priority, make_ready, get_ready_tasks, is_complete,
}
use rg_agent_engine.Concurrency.Manager.{
  ConcurrencyManager, looping, Errors, turn, stop, Step, adds, turns, begins, ends, wakes, stops,
}

-- The task has been collected and has not ended.
abbrev pub is_active : TaskNode → Bool
is_active n = elim n.state [ ready ↦ true | running ↦ true | _ ↦ false ]

abbrev pub none_active : Dict TaskNode → Bool
none_active [] = true
none_active (e ∷ d) = not (is_active e.1) && none_active d

abbrev pub none_starts : List Key → Dict TaskNode → Bool
none_starts ids [] = true
none_starts ids (e ∷ d) = not (can_start ids e.1) && none_starts ids d

-- The loop goes on, no task is active or can start, some task is not terminal, and tasks stand in
-- `running_tasks` that were not taken out when they ended.
pub record IsStuck (m : ConcurrencyManager) : Type 0 where
  pub in_loop : m.phase ≡ looping
  pub on : m.is_running ≡ true
  pub incomplete : is_complete m.graph ≡ false
  pub idle : none_active m.graph.nodes ≡ true
  pub unready : none_starts m.graph.completed_ids m.graph.nodes ≡ true
  pub left : m.running_tasks ≢ []

map_values-visit :
    (ids : List Key) (d : Dict TaskNode)
    → none_starts ids d ≡ true
    → (map_values (visit ids) d ≡ d) × (keep_if (can_start ids) (values d) ≡ [])
unfolding map_values
map_values-visit ids [] h = (refl, refl)
map_values-visit ids (e ∷ d) h =
    let (same, nothing) = map_values-visit ids d (ground arith) in
    let kept : visit ids e.1 ≡ e.1 = ground arith in ((λ i. (e.0, kept i) ∷ same i), ground arith)

get_ready_tasks-idle :
    (g : TaskGraph) → none_starts g.completed_ids g.nodes ≡ true → get_ready_tasks g ≡ ([], g)
unfolding get_ready_tasks sort_by_priority
get_ready_tasks-idle g h =
    let (same, nothing) = map_values-visit g.completed_ids g.nodes h in
    λ i. (sort_by_priority (map make_ready (nothing i)), record g { nodes = same i })

none_active-get :
    (id : Key) (d : Dict TaskNode) (n : TaskNode)
    → none_active d ≡ true
    → get id d ≡ some n
    → is_active n ≡ false
unfolding get
none_active-get id [] n h e = cc
none_active-get id (x ∷ d) n h e = ground (arith, none_active-get id d n)

turn-IsStuck : (m : ConcurrencyManager) → IsStuck m → turn m ≡ m
unfolding turn
turn-IsStuck m s = ground (arith, get_ready_tasks-idle m.graph s.unready)

-- From a stuck execution every step leaves the manager exactly as it is, except that `stop` may be
-- called or a task added: the loop of `execute_graph` never ends by itself.
pub stuck_forever :
    (errors : Errors) (m m' : ConcurrencyManager)
    → IsStuck m
    → Step errors m m'
    → (m' ≡ m) ⊎ ((m' ≡ stop m) ⊎ ((t : NewTask) × (m' ≡ record m { graph = add_task t m.graph })))
stuck_forever errors m m' s (adds t _ e) = inr (inr (t, refl))
stuck_forever errors m m' s (turns _ e) = inl (turn-IsStuck m s)
stuck_forever errors m m' s (begins now id _ (n, e, r) p) =
    let idle = none_active-get id m.graph.nodes n s.idle e in cc
stuck_forever errors m m' s (ends now id ending _ (n, e, r)) =
    let idle = none_active-get id m.graph.nodes n s.idle e in cc
stuck_forever errors m m' s (wakes batch id _ p i d) = cc s.in_loop
stuck_forever errors m m' s (stops _) = inr (inl refl)
