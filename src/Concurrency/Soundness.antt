-- ===== src/Concurrency/Soundness.antt =====
-- shared/agent/concurrency.py: when a task runs, in any order of the steps.
use rg_agent_engine.Base.{
  ℕ, ◌≡◌, refl, inl, inr, Key, Bool, true, false, none, some, List, ◌==◌, arith, Bool-cases,
}
use rg_agent_engine.Base.Lists.{member}
use rg_agent_engine.Base.Dict.{Dict, get, put, get-put}
use rg_agent_engine.Concurrency.Graph.{
  TaskState, TaskNode, TaskGraph, NewTask, pending, completed, blocked, is_pending, is_completed,
  is_subset, add, link, new_node, new_graph, add_task, visit, get_ready_tasks, set_completed,
  set_blocked, mark_completed,
}
use rg_agent_engine.Concurrency.Nodes.{
  get-map_values, get-map_values_found, member-add, is_subset-add, Blocks, unchanged, block,
}
use rg_agent_engine.Concurrency.Links.{link-Links, Links-get, Links-finds}
use rg_agent_engine.Concurrency.Blocking.{Blocks-get}

-- A task that was found ready, whatever has become of it.
abbrev pub has_started : TaskState → Bool
has_started pending = false
has_started blocked = false
has_started _ = true

-- What every graph in execution satisfies.
pub record IsSound (g : TaskGraph) : Type 0 where
  pub met :
      (k : Key) (n : TaskNode)
      → get k g.nodes ≡ some n
      → has_started n.state ≡ true
      → is_subset n.depends_on g.completed_ids ≡ true
  pub finished :
      (k : Key)
      → member k g.completed_ids ≡ true
      → (n : TaskNode) × (get k g.nodes ≡ some n) × (n.state ≡ completed)

pub new_graph-IsSound : IsSound new_graph
unfolding new_graph get
new_graph-IsSound = record { met = λ k n h. cc; finished = λ k h. cc }

-- A started task changes its state and is not completed yet.
pub put-IsSound :
    (g : TaskGraph) (id : Key) (n m : TaskNode)
    → IsSound g
    → get id g.nodes ≡ some n
    → has_started n.state ≡ true
    → is_completed n.state ≡ false
    → m.depends_on ≡ n.depends_on
    → IsSound (record g { nodes = put id m g.nodes })
put-IsSound g id n m s e st c same = record {
  met = λ k v h sv. ground (arith, get-put id k m g.nodes, s.met k v, s.met id n e st);
  finished =
      λ k h. let (v, found, is) = s.finished k h in (v, ground (arith, get-put id k m g.nodes), is);
}

Blocks-finished :
    (k : Key) (d d' : Dict TaskNode) (n : TaskNode)
    → Blocks d d'
    → get k d ≡ some n
    → is_pending n.state ≡ false
    → get k d' ≡ some n
Blocks-finished k d d' n (unchanged _ _ e) g p = rw e at g
Blocks-finished k d d' n (block j v _ _ h s b) g p =
    Blocks-finished k _ d' n b (ground (arith, get-put j k (set_blocked v) d)) p

pub Blocks-IsSound :
    (g : TaskGraph) (d' : Dict TaskNode)
    → IsSound g
    → Blocks g.nodes d'
    → IsSound (record g { nodes = d' })
Blocks-IsSound g d' s b = record {
  met = λ k m h st.
      let (n, found, changed) = Blocks-get k g.nodes d' b m h in ground (arith, s.met k n);
  finished = λ k h.
      let (n, found, is) = s.finished k h in
      (n, Blocks-finished k g.nodes d' n b found (ground arith), is);
}

pub mark_completed-found :
    (now : ℕ) (id result : Key) (g : TaskGraph) (n : TaskNode)
    → get id g.nodes ≡ some n
    → mark_completed now id result g ≡ record g {
      nodes = put id (set_completed now result n) g.nodes;
      completed_ids = add id g.completed_ids;
    }
unfolding mark_completed
mark_completed-found now id result g n e = ground arith

pub mark_completed-IsSound :
    (now : ℕ) (id result : Key) (g : TaskGraph) (n : TaskNode)
    → IsSound g
    → get id g.nodes ≡ some n
    → n.state ≡ completed
    → IsSound (mark_completed now id result g)
mark_completed-IsSound now id result g n s e c =
    let m = set_completed now result n in
    rw (mark_completed-found now id result g n e) (record {
      met = λ k v h st. ground (
        arith,
        get-put id k m g.nodes,
        is_subset-add id v.depends_on g.completed_ids,
        s.met k v,
        s.met id n e,
      );
      finished = λ k h. elim (Bool-cases (id == k)) [
        | inl same ↦ (m, ground (arith, get-put id k m g.nodes), refl)
        | inr other ↦
            let old : member k g.completed_ids ≡ true =
              ground (arith, member-add id k g.completed_ids) in
            let (v, found, is) = s.finished k old in (v, ground (arith, get-put id k m g.nodes), is)
      ];
    })

visit-met :
    (ids : List Key) (n : TaskNode)
    → (has_started n.state ≡ true → is_subset n.depends_on ids ≡ true)
    → has_started (visit ids n).state ≡ true
    → is_subset (visit ids n).depends_on ids ≡ true
visit-met ids n h st = ground (arith, h)

pub get_ready_tasks-IsSound : (g : TaskGraph) → IsSound g → IsSound (get_ready_tasks g).1
unfolding get_ready_tasks
get_ready_tasks-IsSound g s = record {
  met = λ k m h st.
      let (n, found, is) = get-map_values k (visit g.completed_ids) g.nodes h in
      ground (arith, visit-met g.completed_ids n (s.met k n found));
  finished = λ k h.
      let (n, found, is) = s.finished k h in
      let same : visit g.completed_ids n ≡ n = ground arith in
      (n, ground (arith, get-map_values_found k (visit g.completed_ids) g.nodes {n = n} found), is);
}

pub add_task-IsSound :
    (t : NewTask) (g : TaskGraph) → IsSound g → get t.id g.nodes ≡ none → IsSound (add_task t g)
unfolding add_task
add_task-IsSound t g s e =
    let d = link t.id (new_node t).depends_on g.nodes in
    let links = link-Links t.id (new_node t).depends_on g.nodes in
    record {
      met = λ k m h st.
          let old : get k d ≡ some m = ground (arith, get-put t.id k (new_node t) d) in
          let (n, found, state, deps) = Links-get k g.nodes d links m old in
          ground (arith, s.met k n);
      finished = λ k h.
          let (n, found, is) = s.finished k h in
          let (m, found', state) = Links-finds k g.nodes d links n found in
          (m, ground (arith, get-put t.id k (new_node t) d), ground arith);
    }
