-- ===== src/Scheduler/Queue.antt =====
-- shared/agent/scheduler.py: `DeterministicScheduler`.
use rg_agent_engine.Base.{
  ℕ, ◌+◌, ◌-◌, Key, Option, none, some, List, [], ◌∷◌, ltb, leb, is_empty, if◌then◌else◌,
}
use rg_agent_engine.Base.Lists.{length}
use rg_agent_engine.Base.Dict.{Dict, get, put, pop, has_key}
use rg_agent_engine.Scheduler.Tasks.{
  SchedulingPolicy, fifo, by_priority, fair, by_deadline, ScheduledTask, HeapQueue,
}

-- The settings that the scheduler reads, less the times of time-outs and retries.
pub record SchedulerConfig : Type 0 where
  pub policy : SchedulingPolicy
  pub max_queue_size : ℕ
  pub user_quota_per_minute : ℕ
  pub max_retries : ℕ

pub record DeterministicScheduler : Type 0 where
  pub config : SchedulerConfig
  pub queue : List ScheduledTask
  pub running : Dict ScheduledTask
  pub completed : Dict ScheduledTask
  pub failed : Dict ScheduledTask
  pub user_counts : Dict ℕ
  pub user_last_reset : Dict ℕ
  pub total_scheduled : ℕ
  pub total_completed : ℕ
  pub total_failed : ℕ
  pub total_retried : ℕ

unfoldable pub new_scheduler : SchedulerConfig → DeterministicScheduler
new_scheduler config = record {
  config = config;
  queue = [];
  running = [];
  completed = [];
  failed = [];
  user_counts = [];
  user_last_reset = [];
  total_scheduled = 0;
  total_completed = 0;
  total_failed = 0;
  total_retried = 0;
}

-- "_anonymous"
abbrev pub anonymous : Key
anonymous = 1

-- `task.user_id or "_anonymous"`
abbrev pub user_of : ScheduledTask → Key
user_of t = elim t.user_id [ none ↦ anonymous | some u ↦ if is_empty u then anonymous else u ]

-- `self._user_counts.get(user_id, 0)`
abbrev pub count_of : Key → Dict ℕ → ℕ
count_of user counts = elim (get user counts) [ none ↦ 0 | some n ↦ n ]

-- The loop of `_get_fair_task` that resets the counts every minute, over the keys of the old table.
unfoldable pub reset_counts : ℕ → Dict ℕ → DeterministicScheduler → DeterministicScheduler
reset_counts now [] s = s
reset_counts now (e ∷ rest) s = reset_counts now rest (
    if ltb 60 (now - e.1)
    then record s {
      user_counts = put e.0 0 s.user_counts;
      user_last_reset = put e.0 now s.user_last_reset;
    }
    else s)

-- The first task of the list whose user is under the quota, and the other tasks.
unfoldable pub find_under :
    ℕ → Dict ℕ → List ScheduledTask → Option (ScheduledTask × List ScheduledTask)
find_under quota counts [] = none
find_under quota counts (t ∷ rest) =
    let later = find_under quota counts rest in
    if ltb (count_of (user_of t) counts) quota
    then some (t, rest)
    else elim later [ none ↦ none | some (u, others) ↦ some (u, t ∷ others) ]

-- `if user_id not in self._user_last_reset`
abbrev pub note_user : Key → ℕ → Dict ℕ → Dict ℕ
note_user user now resets = if has_key user resets then resets else put user now resets

-- A task whose try begins, and one whose try raised.
abbrev pub start_attempt : ℕ → ScheduledTask → ScheduledTask
start_attempt now t = record t { started_at = some now; attempt = t.attempt + 1 }

abbrev pub with_error : Key → ScheduledTask → ScheduledTask
with_error error t = record t { last_error = some error }

-- `_execute_task` up to the call of the handler
unfoldable pub begin_try : ℕ → ScheduledTask → DeterministicScheduler → DeterministicScheduler
begin_try now t s = record s { running = put t.task_id (start_attempt now t) s.running }

-- The rest of `_execute_task` where the handler returns.
unfoldable pub complete_task : ℕ → ScheduledTask → DeterministicScheduler → DeterministicScheduler
complete_task now t s = record s {
  completed = put t.task_id (record t { completed_at = some now }) s.completed;
  total_completed = s.total_completed + 1;
  running = pop t.task_id s.running;
}

-- Where it raises or times out: a task with attempts left is counted, sleeps while it still stands
-- in `_running`, and is pushed again; any other has failed.
unfoldable pub fail_task : ℕ → Key → ScheduledTask → DeterministicScheduler → DeterministicScheduler
fail_task now error t s =
    let t' = with_error error t in
    if ltb t.attempt s.config.max_retries
    then record s { running = put t.task_id t' s.running; total_retried = s.total_retried + 1 }
    else record s {
      failed = put t.task_id (record t' { completed_at = some now }) s.failed;
      total_failed = s.total_failed + 1;
      running = pop t.task_id s.running;
    }

module _ (heapq : HeapQueue) where
  open heapq use {heappush, heappop, heapify}

  -- `schedule`: none where the queue is full, which raises, and the scheduler with one task more
  unfoldable pub schedule : ScheduledTask → DeterministicScheduler → Option DeterministicScheduler
  schedule t s =
      if leb s.config.max_queue_size (length s.queue)
      then none
      else some (record s { queue = heappush t s.queue; total_scheduled = s.total_scheduled + 1 })

  -- What a call for the next task gives: the task, if there is one, and the scheduler.
  abbrev pub Next : Type 0
  Next = Option ScheduledTask × DeterministicScheduler

  -- `heapq.heappop(self._queue)`
  unfoldable pub pop_next : DeterministicScheduler → Next
  pop_next s = elim s.queue [
    | [] ↦ (none, s)
    | t ∷ rest ↦ let (first, others) = heappop t rest in (some first, record s { queue = others })
  ]

  -- `_get_fair_task` after the reset
  unfoldable pub pick_fair : ℕ → DeterministicScheduler → Next
  pick_fair now s = elim (find_under s.config.user_quota_per_minute s.user_counts s.queue) [
    | none ↦ pop_next s
    | some (t, others) ↦ (
      some t,
      record s {
        queue = heapify others;
        user_counts = put (user_of t) (count_of (user_of t) s.user_counts + 1) s.user_counts;
        user_last_reset = note_user (user_of t) now s.user_last_reset;
      },
    )
  ]

  -- `_get_fair_task`
  unfoldable pub get_fair_task : ℕ → DeterministicScheduler → Next
  get_fair_task now s = pick_fair now (reset_counts now s.user_last_reset s)

  -- `_get_next_task`
  unfoldable pub get_next_task : ℕ → DeterministicScheduler → Next
  get_next_task now s = elim s.queue [
    | [] ↦ (none, s)
    | _ ∷ _ ↦ elim s.config.policy [
      | fifo ↦ pop_next s
      | by_priority ↦ pop_next s
      | fair ↦ get_fair_task now s
      | by_deadline ↦ pop_next s
    ]
  ]

  unfoldable pub requeue_task : ScheduledTask → DeterministicScheduler → DeterministicScheduler
  requeue_task t s = record s { queue = heappush t s.queue; running = pop t.task_id s.running }
