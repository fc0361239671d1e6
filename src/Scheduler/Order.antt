-- ===== src/Scheduler/Order.antt =====
-- shared/agent/scheduler.py: the order in which the policies but the fair one give the tasks.
use mathlib.Core.List.{Perm, foldr}
use mathlib.Core.List.Perm
use mathlib.Core.Bool.{Bool-set}
use rg_agent_engine.Base.{
  ℕ, suc, ◌≡◌, ◌<◌, ◌≤◌, Option, some, refl, subst, sym, ap, ◌∙◌, ◌⊎◌, inl, inr, Bool, true, false,
  not, ◌&&◌, none, List, [], ◌∷◌, ◌++◌, arith,
}
use rg_agent_engine.Base.Lists.{length, All}
use rg_agent_engine.Scheduler.Tasks.{
  SchedulingPolicy, fifo, by_priority, fair, by_deadline, ScheduledTask, HeapQueue, key_ltb,
  all_tasks, is_first,
}
use rg_agent_engine.Scheduler.Queue.{DeterministicScheduler, Next, pop_next, get_next_task}

abbrev pub is_fair : SchedulingPolicy → Bool
is_fair p = elim p [ fifo ↦ false | by_priority ↦ false | fair ↦ true | by_deadline ↦ false ]

all_tasks-foldr :
    (f : ScheduledTask → Bool) (l : List ScheduledTask)
    → all_tasks f l ≡ foldr (λ u rest. f u && rest) true l
all_tasks-foldr f [] = refl
all_tasks-foldr f (u ∷ l) = ap (λ rest. f u && rest) (all_tasks-foldr f l)

swap_tests : (a b x : Bool) → (a && (b && x)) ≡ (b && (a && x))
swap_tests a b x = ground arith

pub all_tasks-Perm :
    (f : ScheduledTask → Bool) (l l' : List ScheduledTask)
    → Perm l l'
    → all_tasks f l ≡ all_tasks f l'
all_tasks-Perm f l l' p =
    all_tasks-foldr f l
    ∙ Perm.foldr-eq Bool-set (λ u rest. f u && rest) (λ u v x. swap_tests (f u) (f v) x) p true
    ∙ sym (all_tasks-foldr f l')

-- The first deadline is earlier, where none is later than any.
abbrev pub IsSooner : Option ℕ → Option ℕ → Type 0
IsSooner none b = ⊥
IsSooner (some a) none = Unit
IsSooner (some a) (some b) = a < b

-- The first task has the lower priority value, or else the earlier deadline, or else was queued
-- earlier, or else its id is not the greater one.
abbrev pub GoesFirst : ScheduledTask → ScheduledTask → Type 0
GoesFirst t u =
    let a = t.sort_key in
    let b = u.sort_key in
    (a.priority < b.priority)
    ⊎ ((a.priority ≡ b.priority)
        × (IsSooner a.deadline b.deadline
            ⊎ ((a.deadline ≡ b.deadline)
                × ((a.enqueued_at < b.enqueued_at)
                    ⊎ ((a.enqueued_at ≡ b.enqueued_at) × (a.task_id ≤ b.task_id))))))

GoesFirst-key_ltb : (t u : ScheduledTask) → key_ltb u.sort_key t.sort_key ≡ false → GoesFirst t u
GoesFirst-key_ltb t u h = ground arith

-- Each task of the list goes before those that follow it.
abbrev pub IsOrdered : List ScheduledTask → Type 0
IsOrdered [] = Unit
IsOrdered (t ∷ l) = All (GoesFirst t) l × IsOrdered l

-- Each task of the first list goes before those of the other.
abbrev pub AllFirst : List ScheduledTask → List ScheduledTask → Type 0
AllFirst l q = All (λ t. All (GoesFirst t) q) l

All-is_first :
    (t : ScheduledTask) (l : List ScheduledTask) → is_first t l ≡ true → All (GoesFirst t) l
All-is_first t [] h = tt
All-is_first t (u ∷ l) h = (GoesFirst-key_ltb t u (ground arith), All-is_first t l (ground arith))

is_first-append :
    (t : ScheduledTask) (l q : List ScheduledTask)
    → is_first t (l ++ q) ≡ (is_first t l && is_first t q)
is_first-append t [] q = refl
is_first-append t (u ∷ l) q = ground (arith, is_first-append t l q)

pub List-cases :
    (l : List ScheduledTask)
    → (l ≡ []) ⊎ ((t : ScheduledTask) × (rest : List ScheduledTask) × (l ≡ t ∷ rest))
List-cases [] = inl refl
List-cases (t ∷ rest) = inr (t, rest, refl)

-- What a choice of the next task leaves as it is.
pub record IsSame (s s' : DeterministicScheduler) : Type 0 where
  pub config : s'.config ≡ s.config
  pub running : s'.running ≡ s.running
  pub completed : s'.completed ≡ s.completed
  pub failed : s'.failed ≡ s.failed

pub IsSame-refl : (s : DeterministicScheduler) → IsSame s s
IsSame-refl s = record { config = refl; running = refl; completed = refl; failed = refl }

pub IsSame-trans : (s t u : DeterministicScheduler) → IsSame s t → IsSame t u → IsSame s u
IsSame-trans s t u p q = record {
  config = q.config ∙ p.config;
  running = q.running ∙ p.running;
  completed = q.completed ∙ p.completed;
  failed = q.failed ∙ p.failed;
}

module _ (heapq : HeapQueue) where
  open heapq use {IsHeap, heappop, heappop-IsHeap, heappop-Perm, heappop-first}

  -- What a call gives that takes the first task of the queue.
  pub record Takes (s : DeterministicScheduler) (next : Next heapq) : Type 0 where
    pub task : ScheduledTask
    pub taken : next.0 ≡ some task
    pub kept : Perm s.queue (task ∷ next.1.queue)
    pub first : is_first task next.1.queue ≡ true
    pub heap : IsHeap next.1.queue
    pub same : IsSame s next.1

  pub pop_next_empty : (s : DeterministicScheduler) → s.queue ≡ [] → pop_next heapq s ≡ (none, s)
  unfolding pop_next
  pop_next_empty s e = ground arith

  pub pop_next-IsSame : (s : DeterministicScheduler) → IsSame s (pop_next heapq s).1
  unfolding pop_next
  pop_next-IsSame s = elim (List-cases s.queue) [
    | inl e ↦ rw (pop_next_empty s e) (IsSame-refl s)
    | inr (t, l, e) ↦
        rw (e, pop_next) (record { config = refl; running = refl; completed = refl; failed = refl })
  ]

  pub pop_next-Takes :
      (s : DeterministicScheduler) (t : ScheduledTask) (l : List ScheduledTask)
      → s.queue ≡ t ∷ l
      → IsHeap s.queue
      → Takes s (pop_next heapq s)
  unfolding pop_next
  pop_next-Takes s t l e h =
      let heap : IsHeap (t ∷ l) = subst IsHeap e h in
      rw e (record {
        task = (heappop t l).0;
        taken = refl;
        kept = heappop-Perm t l heap;
        first = heappop-first t l heap;
        heap = heappop-IsHeap t l heap;
        same = record { config = refl; running = refl; completed = refl; failed = refl };
      })

  pub get_next_task_empty :
      (now : ℕ) (s : DeterministicScheduler) → s.queue ≡ [] → get_next_task heapq now s ≡ (none, s)
  unfolding get_next_task
  get_next_task_empty now s e = ground arith

  pub get_next_task-Takes :
      (now : ℕ) (s : DeterministicScheduler)
      → is_fair s.config.policy ≡ false
      → IsHeap s.queue
      → (t : ScheduledTask) (l : List ScheduledTask) → s.queue ≡ t ∷ l
      → Takes s (get_next_task heapq now s)
  unfolding get_next_task
  get_next_task-Takes now s f h t l e = ground (arith, e, pop_next-Takes s t l e h)

  -- The tasks that calls at these times give, up to the first that gives none, and the scheduler then.
  unfoldable pub take_tasks :
      List ℕ → DeterministicScheduler → List ScheduledTask × DeterministicScheduler
  take_tasks [] s = ([], s)
  take_tasks (now ∷ times) s =
      let (next, s') = get_next_task heapq now s in
      elim next [
        | none ↦ ([], s')
        | some t ↦ let (tasks, final) = take_tasks times s' in (t ∷ tasks, final)
      ]

  -- What is shown of the tasks taken from `s` and of the scheduler `r.1`.
  pub record InOrder (calls : ℕ) (s : DeterministicScheduler)
      (r : List ScheduledTask × DeterministicScheduler) : Type 0 where
    pub kept : Perm s.queue (r.0 ++ r.1.queue)
    pub ordered : IsOrdered r.0
    pub before_rest : AllFirst r.0 r.1.queue
    -- a task for every call, unless none is left
    pub all_calls : (length r.0 ≡ calls) ⊎ (r.1.queue ≡ [])

  take-InOrder :
      (s : DeterministicScheduler) (next : Next heapq) (calls : ℕ)
      (r : List ScheduledTask × DeterministicScheduler) (p : Takes s next)
      → InOrder calls next.1 r
      → InOrder (suc calls) s (p.task ∷ r.0, r.1)
  take-InOrder s next calls r p q =
      let first : (is_first p.task r.0 && is_first p.task r.1.queue) ≡ true =
        sym (is_first-append p.task r.0 r.1.queue)
        ∙ sym (
            all_tasks-Perm (λ u. not (key_ltb u.sort_key p.task.sort_key)) next.1.queue
              (r.0 ++ r.1.queue) q.kept)
        ∙ p.first in
      record {
        kept = Perm.trans p.kept (Perm.cons p.task q.kept);
        ordered = (All-is_first p.task r.0 (ground (arith, first)), q.ordered);
        before_rest = (All-is_first p.task r.1.queue (ground (arith, first)), q.before_rest);
        all_calls = elim q.all_calls [ inl e ↦ inl (ap suc e) | inr e ↦ inr e ];
      }

  -- Under each policy but the fair one, FIFO and DEADLINE included, the calls give tasks of the queue,
  -- one for each call unless none is left: each has a lower priority value than any task that comes
  -- after it or stays in the queue, or the same with an earlier deadline, or these equal and an
  -- earlier time of queueing, or these equal and an id that is not greater; no task is lost or given
  -- twice.
  pub take_tasks-InOrder :
      (times : List ℕ) (s : DeterministicScheduler)
      → is_fair s.config.policy ≡ false
      → IsHeap s.queue
      → InOrder (length times) s (take_tasks times s)
  unfolding take_tasks
  take_tasks-InOrder [] s f h = record {
    kept = Perm.refl s.queue;
    ordered = tt;
    before_rest = tt;
    all_calls = inl refl;
  }
  take_tasks-InOrder (now ∷ times) s f h = elim (List-cases s.queue) [
    | inl e ↦
        let out = get_next_task_empty now s e in
        rw (out, take_tasks)
          (record {
            kept = rw out (Perm.refl s.queue);
            ordered = tt;
            before_rest = tt;
            all_calls = inr (rw out e);
          })
    | inr (t, l, e) ↦
        let p = get_next_task-Takes now s f h t l e in
        rw (p.taken, take_tasks)
          (take-InOrder s (get_next_task heapq now s) (length times) _ p
            (take_tasks-InOrder times _ (ap (λ c. is_fair c.policy) p.same.config ∙ f) p.heap))
  ]
