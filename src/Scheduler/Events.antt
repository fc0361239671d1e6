-- ===== src/Scheduler/Events.antt =====
-- shared/agent/scheduler.py: the scheduler with the coroutines that run its tasks.
use rg_agent_engine.Base.{ℕ, ◌++◌, if◌then◌else◌, Key, Option, none, some, List, [], ◌∷◌, ltb}
use rg_agent_engine.Base.Dict.{Dict, get, put, pop}
use rg_agent_engine.Scheduler.Tasks.{TaskPriority, ScheduledTask, HeapQueue, create}
use rg_agent_engine.Scheduler.Queue.{
  SchedulerConfig, DeterministicScheduler, new_scheduler, schedule, get_next_task, start_attempt,
  begin_try, complete_task, with_error, fail_task, requeue_task,
}

-- The scheduler with the tasks of its coroutines: taken and not yet begun, whose handler runs, and
-- asleep before a retry.
pub record TaskPool : Type 0 where
  pub scheduler : DeterministicScheduler
  pub taken : List ScheduledTask
  pub executing : Dict ScheduledTask
  pub asleep : Dict ScheduledTask

pub data TaskEvent : Type 0 where
  -- the id, the time, the name, the priority, the user and the deadline
  schedules : Key → ℕ → Key → TaskPriority → Option Key → Option ℕ → TaskEvent
  takes : ℕ → TaskEvent
  begins : ℕ → TaskEvent
  completes : ℕ → Key → TaskEvent
  fails : ℕ → Key → Key → TaskEvent
  wakes : Key → TaskEvent

-- A task that fails sleeps where `fail_task` keeps the task running.
abbrev pub fall_asleep : ℕ → Key → ScheduledTask → Dict ScheduledTask → Dict ScheduledTask
fall_asleep max error t asleep =
    if ltb t.attempt max then put t.task_id (with_error error t) asleep else asleep

abbrev pub add_taken : Option ScheduledTask → List ScheduledTask → List ScheduledTask
add_taken none l = l
add_taken (some t) l = l ++ t ∷ []

abbrev pub no_tasks : SchedulerConfig → TaskPool
no_tasks config = record {
  scheduler = new_scheduler config;
  taken = [];
  executing = [];
  asleep = [];
}

module _ (heapq : HeapQueue) where
  unfoldable pub on_event : TaskEvent → TaskPool → TaskPool
  on_event (schedules id now name priority user deadline) w =
      elim (schedule heapq (create id now name priority user deadline) w.scheduler) [
        | none ↦ w
        | some s ↦ record w { scheduler = s }
      ]
  on_event (takes now) w =
      let (next, s) = get_next_task heapq now w.scheduler in
      record w { scheduler = s; taken = add_taken next w.taken }
  on_event (begins now) w = elim w.taken [
    | [] ↦ w
    | t ∷ others ↦ record w {
      scheduler = begin_try now t w.scheduler;
      taken = others;
      executing = put t.task_id (start_attempt now t) w.executing;
    }
  ]
  on_event (completes now id) w = elim (get id w.executing) [
    | none ↦ w
    | some t ↦ record w {
      scheduler = complete_task now t w.scheduler;
      executing = pop id w.executing;
    }
  ]
  on_event (fails now id error) w = elim (get id w.executing) [
    | none ↦ w
    | some t ↦ record w {
      scheduler = fail_task now error t w.scheduler;
      executing = pop id w.executing;
      asleep = fall_asleep w.scheduler.config.max_retries error t w.asleep;
    }
  ]
  on_event (wakes id) w = elim (get id w.asleep) [
    | none ↦ w
    | some t ↦ record w { scheduler = requeue_task heapq t w.scheduler; asleep = pop id w.asleep }
  ]

  unfoldable pub run : List TaskEvent → TaskPool → TaskPool
  run [] w = w
  run (e ∷ events) w = run events (on_event e w)
