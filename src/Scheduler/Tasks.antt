-- ===== src/Scheduler/Tasks.antt =====
-- shared/agent/scheduler.py: tasks, their order, and what is used of Python's heapq.
use mathlib.Core.List.{Perm}
use rg_agent_engine.Base.{
  ℕ, ◌≡◌, Key, Bool, true, false, not, ◌&&◌, Option, none, some, List, [], ◌∷◌, ◌==◌, ltb,
  if◌then◌else◌,
}

pub data TaskPriority : Type 0 where
  critical high normal low background : TaskPriority

-- `priority.value`
abbrev pub priority_value : TaskPriority → ℕ
priority_value p = elim p [ critical ↦ 0 | high ↦ 25 | normal ↦ 50 | low ↦ 75 | background ↦ 100 ]

pub data SchedulingPolicy : Type 0 where
  fifo by_priority fair by_deadline : SchedulingPolicy

-- `sort_key`: a deadline of none is `float('inf')`
pub record SortKey : Type 0 where
  pub priority : ℕ
  pub deadline : Option ℕ
  pub enqueued_at : ℕ
  pub task_id : Key

pub record ScheduledTask : Type 0 where
  pub sort_key : SortKey
  pub task_id : Key
  pub name : Key
  pub user_id : Option Key
  pub started_at : Option ℕ
  pub completed_at : Option ℕ
  pub attempt : ℕ
  pub last_error : Option Key

abbrev pub deadline_ltb : Option ℕ → Option ℕ → Bool
deadline_ltb none b = false
deadline_ltb (some a) none = true
deadline_ltb (some a) (some b) = ltb a b

-- `a < b` on the keys, as tuples
abbrev pub key_ltb : SortKey → SortKey → Bool
key_ltb a b =
    if ltb a.priority b.priority
    then true
    else if ltb b.priority a.priority
    then false
    else if deadline_ltb a.deadline b.deadline
    then true
    else if deadline_ltb b.deadline a.deadline
    then false
    else if ltb a.enqueued_at b.enqueued_at
    then true
    else if ltb b.enqueued_at a.enqueued_at
    then false
    else ltb a.task_id b.task_id

-- `deadline or float('inf')`
abbrev pub or_infinite : Option ℕ → Option ℕ
or_infinite none = none
or_infinite (some d) = if d == 0 then none else some d

-- `ScheduledTask.create`
unfoldable pub create : Key → ℕ → Key → TaskPriority → Option Key → Option ℕ → ScheduledTask
create id now name priority user deadline = record {
  sort_key = record {
    priority = priority_value priority;
    deadline = or_infinite deadline;
    enqueued_at = now;
    task_id = id;
  };
  task_id = id;
  name = name;
  user_id = user;
  started_at = none;
  completed_at = none;
  attempt = 0;
  last_error = none;
}

abbrev pub all_tasks : (ScheduledTask → Bool) → List ScheduledTask → Bool
all_tasks f [] = true
all_tasks f (t ∷ l) = f t && all_tasks f l

-- No task of the list comes before `t`.
abbrev pub is_first : ScheduledTask → List ScheduledTask → Bool
is_first t = all_tasks (λ u. not (key_ltb u.sort_key t.sort_key))

-- heapq: the operations keep the tasks and the shape of a heap, and `heappop` gives a smallest one.
pub record HeapQueue : Type 1 where
  pub IsHeap : List ScheduledTask → Type 0
  pub heappush : ScheduledTask → List ScheduledTask → List ScheduledTask
  pub heappop : ScheduledTask → List ScheduledTask → ScheduledTask × List ScheduledTask
  pub heapify : List ScheduledTask → List ScheduledTask
  pub nil-IsHeap : IsHeap []
  pub heappush-IsHeap :
      (t : ScheduledTask) (l : List ScheduledTask) → IsHeap l → IsHeap (heappush t l)
  pub heappush-Perm : (t : ScheduledTask) (l : List ScheduledTask) → Perm (heappush t l) (t ∷ l)
  pub heapify-IsHeap : (l : List ScheduledTask) → IsHeap (heapify l)
  pub heapify-Perm : (l : List ScheduledTask) → Perm (heapify l) l
  -- of the list `t ∷ l`, which is not empty
  pub heappop-IsHeap :
      (t : ScheduledTask) (l : List ScheduledTask) → IsHeap (t ∷ l) → IsHeap (heappop t l).1
  pub heappop-Perm :
      (t : ScheduledTask) (l : List ScheduledTask)
      → IsHeap (t ∷ l)
      → Perm (t ∷ l) ((heappop t l).0 ∷ (heappop t l).1)
  pub heappop-first :
      (t : ScheduledTask) (l : List ScheduledTask)
      → IsHeap (t ∷ l)
      → is_first (heappop t l).0 (heappop t l).1 ≡ true
