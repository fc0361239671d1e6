-- ===== src/Scheduler/Tries.antt =====
-- shared/agent/scheduler.py: the tries of a task: what schedules, takes and begins.
use rg_agent_engine.Base.{
  ℕ, ◌≤◌, ◌<◌, ◌≡◌, refl, sym, ap, subst, ◌++◌, ◌∙◌, inl, inr, Key, Bool, true, ◌&&◌, Option, none,
  some, List, [], ◌∷◌, arith, ltb, leb, lt→ltb, Bool-cases,
}
use rg_agent_engine.Base.Lists.{length}
use rg_agent_engine.Base.Dict.{Dict, get, put, pop, get-put_inv, get-pop, get-nil}
use rg_agent_engine.Scheduler.Tasks.{TaskPriority, ScheduledTask, HeapQueue, create, all_tasks}
use rg_agent_engine.Scheduler.Queue.{schedule, start_attempt, begin_try}
use rg_agent_engine.Scheduler.Events.{TaskPool, schedules, takes, begins, add_taken, on_event}
use rg_agent_engine.Scheduler.Order.{List-cases, all_tasks-Perm}
use rg_agent_engine.Scheduler.Choice.{get_next_task-Keeps}

-- Every task of the table has it.
abbrev pub Each : (ScheduledTask → Type 0) → Dict ScheduledTask → Type 0
Each P d = (id : Key) (t : ScheduledTask) → get id d ≡ some t → P t

pub put-Each :
    (P : ScheduledTask → Type 0) (id : Key) (t : ScheduledTask) (d : Dict ScheduledTask)
    → P t
    → Each P d
    → Each P (put id t d)
put-Each P id t d p h k u g = elim (get-put_inv id k t d g) [
  | inl (same, is) ↦ subst P is p
  | inr (other, old) ↦ h k u old
]

pub pop-Each :
    (P : ScheduledTask → Type 0) (id : Key) (d : Dict ScheduledTask) → Each P d → Each P (pop id d)
pop-Each P id d h k u g = h k u (ground (arith, get-pop id k d))

pub nil-Each : (P : ScheduledTask → Type 0) → Each P []
nil-Each P k u g = get-nil k g

-- The task is not yet at its last try, and it has been tried and no more than `max` times.
abbrev pub has_tries : ℕ → ScheduledTask → Bool
has_tries max t = ltb t.attempt max

pub record IsTried (max : ℕ) (t : ScheduledTask) : Type 0 where
  pub once : 0 < t.attempt
  pub within : t.attempt ≤ max

module _ (heapq : HeapQueue) where
  open heapq use {
    IsHeap, nil-IsHeap, heappush, heappush-IsHeap, heappush-Perm, heapify, heapify-IsHeap,
    heapify-Perm, heappop, heappop-IsHeap, heappop-Perm,
  }

  -- No queued task and no task that is taken or asleep is at its last try, a running or completed
  -- task is within the tries, and a failed one has had them all.
  pub record IsWithin (max : ℕ) (w : TaskPool) : Type 0 where
    pub tries : w.scheduler.config.max_retries ≡ max
    pub heap : IsHeap w.scheduler.queue
    pub queued : all_tasks (has_tries max) w.scheduler.queue ≡ true
    pub taken : all_tasks (has_tries max) w.taken ≡ true
    pub executing : Each (IsTried max) w.executing
    pub asleep : Each (λ t. has_tries max t ≡ true) w.asleep
    pub running : Each (IsTried max) w.scheduler.running
    pub completed : Each (IsTried max) w.scheduler.completed
    pub failed : Each (λ t. t.attempt ≡ max) w.scheduler.failed

  pub push-Within :
      (max : ℕ) (t : ScheduledTask) (l : List ScheduledTask)
      → has_tries max t ≡ true
      → all_tasks (has_tries max) l ≡ true
      → all_tasks (has_tries max) (heappush t l) ≡ true
  push-Within max t l p h =
      all_tasks-Perm (has_tries max) (heappush t l) (t ∷ l) (heappush-Perm t l) ∙ ground arith

  append-tasks :
      (max : ℕ) (t : ScheduledTask) (l : List ScheduledTask)
      → all_tasks (has_tries max) l ≡ true
      → has_tries max t ≡ true
      → all_tasks (has_tries max) (l ++ t ∷ []) ≡ true
  append-tasks max t [] h p = ground arith
  append-tasks max t (u ∷ l) h p = ground (arith, append-tasks max t l)

  add_taken_lem :
      (max : ℕ) (next : Option ScheduledTask) (l : List ScheduledTask)
      → all_tasks (has_tries max) l ≡ true
      → ((t : ScheduledTask) → next ≡ some t → has_tries max t ≡ true)
      → all_tasks (has_tries max) (add_taken next l) ≡ true
  add_taken_lem max none l h g = h
  add_taken_lem max (some t) l h g = append-tasks max t l h (g t refl)

  pub takes-Within :
      (max now : ℕ) (w : TaskPool) → IsWithin max w → IsWithin max (on_event heapq (takes now) w)
  unfolding on_event
  takes-Within max now w h =
      let k = get_next_task-Keeps heapq (has_tries max) now w.scheduler h.heap h.queued in
      record {
        tries = ap (λ c. c.max_retries) k.same.config ∙ h.tries;
        heap = k.heap;
        queued = k.rest;
        taken = add_taken_lem max _ w.taken h.taken k.given;
        executing = h.executing;
        asleep = h.asleep;
        running = rw k.same.running h.running;
        completed = rw k.same.completed h.completed;
        failed = rw k.same.failed h.failed;
      }

  pub schedules-Within :
      (max now : ℕ) (id name : Key) (priority : TaskPriority) (user : Option Key)
      (deadline : Option ℕ) (w : TaskPool)
      → 0 < max
      → IsWithin max w
      → IsWithin max (on_event heapq (schedules id now name priority user deadline) w)
  unfolding on_event schedule create
  schedules-Within max now id name priority user deadline w p h =
      let t = create id now name priority user deadline in
      elim (Bool-cases (leb w.scheduler.config.max_queue_size (length w.scheduler.queue))) [
        | inl y ↦ rw (y, on_event, schedule) h
        | inr n ↦
            rw (n, on_event, schedule)
              (record {
                tries = h.tries;
                heap = heappush-IsHeap t w.scheduler.queue h.heap;
                queued = push-Within max t w.scheduler.queue (lt→ltb 0 max p) h.queued;
                taken = h.taken;
                executing = h.executing;
                asleep = h.asleep;
                running = h.running;
                completed = h.completed;
                failed = h.failed;
              })
      ]

  pub begins-Within :
      (max now : ℕ) (w : TaskPool) → IsWithin max w → IsWithin max (on_event heapq (begins now) w)
  unfolding on_event begin_try
  begins-Within max now w h = elim (List-cases w.taken) [
    | inl e ↦ rw (e, on_event) h
    | inr (t, others, e) ↦
        let both : (has_tries max t && all_tasks (has_tries max) others) ≡ true =
          ap (all_tasks (has_tries max)) (sym e) ∙ h.taken in
        let tried : IsTried max (start_attempt now t) = record {
          once = omega arith;
          within = ground (arith, both);
        } in
        rw (e, on_event)
          (record {
            tries = h.tries;
            heap = h.heap;
            queued = h.queued;
            taken = ground (arith, both);
            executing = put-Each (IsTried max) t.task_id _ w.executing tried h.executing;
            asleep = h.asleep;
            running = put-Each (IsTried max) t.task_id _ w.scheduler.running tried h.running;
            completed = h.completed;
            failed = h.failed;
          })
  ]
