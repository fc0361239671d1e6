-- ===== src/Scheduler/Select/Tests.antt =====
-- shared/agent/scheduler.py: three tasks of two users.
use rg_agent_engine.Base.{◌≡◌, refl, none, some, List, [], ◌∷◌, arith}
use rg_agent_engine.Base.Dict.{get, put, pop}
use rg_agent_engine.Scheduler.Tasks.{
  critical, low, background, SchedulingPolicy, fifo, fair, ScheduledTask, create,
}
use rg_agent_engine.Scheduler.Queue.{
  SchedulerConfig, DeterministicScheduler, new_scheduler, schedule, get_next_task, pop_next,
  get_fair_task, pick_fair, reset_counts, find_under, begin_try, fail_task, requeue_task,
}
use rg_agent_engine.Scheduler.Order.{InOrder, take_tasks, take_tasks-InOrder}
use rg_agent_engine.Scheduler.Fairness.{IsFair, get_next_task-IsFair}
use rg_agent_engine.Scheduler.Events.{
  TaskEvent, schedules, takes, begins, fails, wakes, no_tasks, on_event, run,
}
use rg_agent_engine.Scheduler.Attempts.{run-IsWithin}
use rg_agent_engine.Scheduler.Tries.{IsWithin}
use rg_agent_engine.Scheduler.Select.{selecting, select}

-- At most a task per user and minute, and two tries of a task.
abbrev config : SchedulingPolicy → SchedulerConfig
config policy = record {
  policy = policy;
  max_queue_size = 10;
  user_quota_per_minute = 1;
  max_retries = 2;
}

abbrev cleaning : ScheduledTask
cleaning = create 21 100 5 background (some 7) none

abbrev report : ScheduledTask
report = create 22 105 6 critical (some 7) none

abbrev backup : ScheduledTask
backup = create 23 110 8 low (some 9) none

-- The user 7 has had a task of this minute.
abbrev waiting : SchedulingPolicy → DeterministicScheduler
waiting policy = record (new_scheduler (config policy)) {
  queue = cleaning ∷ report ∷ backup ∷ [];
  user_counts = put 7 1 [];
  user_last_reset = put 7 95 [];
}

-- The policy FIFO gives the task that was queued last but is critical.
fifo_by_priority :
    (take_tasks selecting (120 ∷ 121 ∷ 122 ∷ 123 ∷ []) (waiting fifo)).0
    ≡ report ∷ backup ∷ cleaning ∷ []
unfolding take_tasks get_next_task pop_next new_scheduler create select put
fifo_by_priority = refl

take_tasks-InOrder_example :
    InOrder selecting 2 (waiting fifo) (take_tasks selecting (120 ∷ 121 ∷ []) (waiting fifo))
unfolding new_scheduler create put
take_tasks-InOrder_example = take_tasks-InOrder selecting (120 ∷ 121 ∷ []) (waiting fifo) refl tt

-- The critical task waits, since its user is at the quota.
fair_passes : (get_next_task selecting 120 (waiting fair)).0 ≡ some backup
unfolding get_next_task get_fair_task pick_fair reset_counts find_under new_scheduler create put get
fair_passes = refl

get_next_task-IsFair_example :
    IsFair selecting
      (waiting fair).queue
      1
      (reset_counts 120 (waiting fair).user_last_reset (waiting fair)).user_counts
      (get_next_task selecting 120 (waiting fair))
unfolding reset_counts new_scheduler create put get
get_next_task-IsFair_example = get_next_task-IsFair selecting 120 (waiting fair) refl refl

abbrev events : List TaskEvent
events =
    schedules 21 100 5 background (some 7) none
    ∷ takes 101
    ∷ begins 102
    ∷ fails 103 21 13
    ∷ wakes 21
    ∷ takes 105
    ∷ begins 106
    ∷ fails 107 21 14
    ∷ []

-- The second failure is final.
failed_twice :
    get 21 (run selecting events (no_tasks (config fair))).scheduler.failed
    ≡ some (record cleaning {
      started_at = some 106;
      completed_at = some 107;
      attempt = 2;
      last_error = some 14;
    })
unfolding run on_event schedule get_next_task get_fair_task pick_fair reset_counts find_under
    begin_try fail_task requeue_task new_scheduler create put get pop pop_next select
failed_twice = refl

run-IsWithin_example : IsWithin selecting 2 (run selecting events (no_tasks (config fair)))
run-IsWithin_example = run-IsWithin selecting (config fair) events (omega arith)
