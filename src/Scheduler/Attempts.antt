-- ===== src/Scheduler/Attempts.antt =====
-- shared/agent/scheduler.py: how often a task is tried.
use rg_agent_engine.Base.{
  ℕ, ◌<◌, ◌≡◌, refl, inl, inr, Key, true, List, [], ◌∷◌, arith, ltb, Bool-cases, Option-cases,
}
use rg_agent_engine.Base.Dict.{get}
use rg_agent_engine.Scheduler.Tasks.{HeapQueue}
use rg_agent_engine.Scheduler.Queue.{
  SchedulerConfig, new_scheduler, complete_task, with_error, fail_task, requeue_task,
}
use rg_agent_engine.Scheduler.Events.{
  TaskPool, TaskEvent, schedules, takes, begins, completes, fails, wakes, on_event, run, no_tasks,
}
use rg_agent_engine.Scheduler.Tries.{
  put-Each, pop-Each, nil-Each, has_tries, IsTried, IsWithin, push-Within, takes-Within,
  schedules-Within, begins-Within,
}

module _ (heapq : HeapQueue) where
  open heapq use {nil-IsHeap, heappush-IsHeap}

  completes-Within :
      (max now : ℕ) (id : Key) (w : TaskPool)
      → IsWithin heapq max w
      → IsWithin heapq max (on_event heapq (completes now id) w)
  unfolding on_event complete_task
  completes-Within max now id w h = elim (Option-cases (get id w.executing)) [
    | inl e ↦ rw (e, on_event) h
    | inr (t, e) ↦
        let tried = h.executing id t e in
        rw (e, on_event)
          (record {
            tries = h.tries;
            heap = h.heap;
            queued = h.queued;
            taken = h.taken;
            executing = pop-Each (IsTried max) id w.executing h.executing;
            asleep = h.asleep;
            running = pop-Each (IsTried max) t.task_id w.scheduler.running h.running;
            completed =
                put-Each (IsTried max) t.task_id _ w.scheduler.completed
                  (record { once = tried.once; within = tried.within }) h.completed;
            failed = h.failed;
          })
  ]

  fails-Within :
      (max now : ℕ) (id error : Key) (w : TaskPool)
      → IsWithin heapq max w
      → IsWithin heapq max (on_event heapq (fails now id error) w)
  unfolding on_event fail_task
  fails-Within max now id error w h = elim (Option-cases (get id w.executing)) [
    | inl e ↦ rw (e, on_event) h
    | inr (t, e) ↦
        let tried = h.executing id t e in
        let again : IsTried max (with_error error t) = record {
          once = tried.once;
          within = tried.within;
        } in
        let others = pop-Each (IsTried max) id w.executing h.executing in
        elim (Bool-cases (ltb t.attempt w.scheduler.config.max_retries)) [
          | inl y ↦
              rw (e, on_event, y)
                (record {
                  tries = h.tries;
                  heap = h.heap;
                  queued = h.queued;
                  taken = h.taken;
                  executing = others;
                  asleep =
                      put-Each (λ u. has_tries max u ≡ true) t.task_id _ w.asleep (rw (← h.tries) y)
                        h.asleep;
                  running = put-Each (IsTried max) t.task_id _ w.scheduler.running again h.running;
                  completed = h.completed;
                  failed = h.failed;
                })
          | inr n ↦
              rw (e, on_event, n)
                (record {
                  tries = h.tries;
                  heap = h.heap;
                  queued = h.queued;
                  taken = h.taken;
                  executing = others;
                  asleep = h.asleep;
                  running = pop-Each (IsTried max) t.task_id w.scheduler.running h.running;
                  completed = h.completed;
                  failed =
                      put-Each (λ u. u.attempt ≡ max) t.task_id _ w.scheduler.failed
                        (let le = tried.within in let m = h.tries in ground arith) h.failed;
                })
        ]
  ]

  wakes-Within :
      (max : ℕ) (id : Key) (w : TaskPool)
      → IsWithin heapq max w
      → IsWithin heapq max (on_event heapq (wakes id) w)
  unfolding on_event requeue_task
  wakes-Within max id w h = elim (Option-cases (get id w.asleep)) [
    | inl e ↦ rw (e, on_event) h
    | inr (t, e) ↦
        rw (e, on_event)
          (record {
            tries = h.tries;
            heap = heappush-IsHeap t w.scheduler.queue h.heap;
            queued = push-Within heapq max t w.scheduler.queue (h.asleep id t e) h.queued;
            taken = h.taken;
            executing = h.executing;
            asleep = pop-Each (λ u. has_tries max u ≡ true) id w.asleep h.asleep;
            running = pop-Each (IsTried max) t.task_id w.scheduler.running h.running;
            completed = h.completed;
            failed = h.failed;
          })
  ]

  on_event-Within :
      (max : ℕ) (e : TaskEvent) (w : TaskPool)
      → 0 < max
      → IsWithin heapq max w
      → IsWithin heapq max (on_event heapq e w)
  on_event-Within max (schedules id now name priority user deadline) w p h =
      schedules-Within heapq max now id name priority user deadline w p h
  on_event-Within max (takes now) w p h = takes-Within heapq max now w h
  on_event-Within max (begins now) w p h = begins-Within heapq max now w h
  on_event-Within max (completes now id) w p h = completes-Within max now id w h
  on_event-Within max (fails now id error) w p h = fails-Within max now id error w h
  on_event-Within max (wakes id) w p h = wakes-Within max id w h

  run-Within :
      (max : ℕ) (events : List TaskEvent) (w : TaskPool)
      → 0 < max
      → IsWithin heapq max w
      → IsWithin heapq max (run heapq events w)
  unfolding run
  run-Within max [] w p h = h
  run-Within max (e ∷ events) w p h =
      run-Within max events (on_event heapq e w) p (on_event-Within max e w p h)

  -- Under any events from a new scheduler that allows a try, under each policy, the tasks that wait
  -- have a try left and so have those asleep, a running or completed task has had between one try
  -- and the limit, and a failed one has had exactly as many tries as the limit.
  pub run-IsWithin :
      (config : SchedulerConfig) (events : List TaskEvent)
      → 0 < config.max_retries
      → IsWithin heapq config.max_retries (run heapq events (no_tasks config))
  unfolding new_scheduler
  run-IsWithin config events p = run-Within config.max_retries events (no_tasks config) p (record {
    tries = refl;
    heap = nil-IsHeap;
    queued = refl;
    taken = refl;
    executing = nil-Each (IsTried config.max_retries);
    asleep = nil-Each (λ t. has_tries config.max_retries t ≡ true);
    running = nil-Each (IsTried config.max_retries);
    completed = nil-Each (IsTried config.max_retries);
    failed = nil-Each (λ t. t.attempt ≡ config.max_retries);
  })
