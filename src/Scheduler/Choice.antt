-- ===== src/Scheduler/Choice.antt =====
-- shared/agent/scheduler.py: what a choice of the next task keeps, under every policy.
use mathlib.Core.List.{Perm}
use mathlib.Core.Option.{some-injective}
use rg_agent_engine.Base.{
  ℕ, ◌≡◌, refl, sym, ◌∙◌, inl, inr, Bool, true, ◌&&◌, none, some, ◌∷◌, arith, Bool-cases,
}
use rg_agent_engine.Scheduler.Tasks.{
  SchedulingPolicy, fifo, by_priority, fair, by_deadline, ScheduledTask, HeapQueue, all_tasks,
}
use rg_agent_engine.Scheduler.Queue.{
  DeterministicScheduler, Next, reset_counts, pop_next, pick_fair, get_next_task,
}
use rg_agent_engine.Scheduler.Order.{
  List-cases, IsSame, IsSame-refl, IsSame-trans, all_tasks-Perm, is_fair, Takes, pop_next_empty,
  pop_next-Takes, get_next_task_empty, get_next_task-Takes,
}
use rg_agent_engine.Scheduler.Fairness.{
  any_under, reset_counts_kept, pick_fair-IsFair, pick_fair-IsSame, pick_fair_rest,
  get_next_task_fair,
}

is_fair_only : (p : SchedulingPolicy) → is_fair p ≡ true → p ≡ fair
is_fair_only fifo h = ground arith
is_fair_only by_priority h = ground arith
is_fair_only fair h = refl
is_fair_only by_deadline h = ground arith

module _ (heapq : HeapQueue) (f : ScheduledTask → Bool) where
  open heapq use {IsHeap}

  -- The task that the call gives and those that stay queued have what all of the queue had.
  pub record Keeps (s : DeterministicScheduler) (next : Next heapq) : Type 0 where
    pub same : IsSame s next.1
    pub heap : IsHeap next.1.queue
    pub rest : all_tasks f next.1.queue ≡ true
    pub given : (t : ScheduledTask) → next.0 ≡ some t → f t ≡ true

  nothing-Keeps :
      (s : DeterministicScheduler) (next : Next heapq)
      → next ≡ (none, s)
      → IsHeap s.queue
      → all_tasks f s.queue ≡ true
      → Keeps s next
  nothing-Keeps s next e h a =
      rw e (record { same = IsSame-refl s; heap = h; rest = a; given = λ t no. ground arith })

  task-Keeps :
      (s : DeterministicScheduler) (next : Next heapq) (u : ScheduledTask)
      → IsSame s next.1
      → IsHeap next.1.queue
      → next.0 ≡ some u
      → Perm s.queue (u ∷ next.1.queue)
      → all_tasks f s.queue ≡ true
      → Keeps s next
  task-Keeps s next u same h e p a =
      let both : (f u && all_tasks f next.1.queue) ≡ true =
        sym (all_tasks-Perm f s.queue (u ∷ next.1.queue) p) ∙ a in
      record {
        same = same;
        heap = h;
        rest = ground (arith, both);
        given = λ t g.
            let is : u ≡ t = some-injective u t (sym e ∙ g) in rw (← is) (ground (arith, both));
      }

  Takes-Keeps :
      (s : DeterministicScheduler) (next : Next heapq)
      → Takes heapq s next
      → all_tasks f s.queue ≡ true
      → Keeps s next
  Takes-Keeps s next p a = task-Keeps s next p.task p.same p.heap p.taken p.kept a

  pop_next-Keeps :
      (s : DeterministicScheduler)
      → IsHeap s.queue
      → all_tasks f s.queue ≡ true
      → Keeps s (pop_next heapq s)
  pop_next-Keeps s h a = elim (List-cases s.queue) [
    | inl e ↦ nothing-Keeps s _ (pop_next_empty heapq s e) h a
    | inr (t, l, e) ↦ Takes-Keeps s _ (pop_next-Takes heapq s t l e h) a
  ]

  pick_fair-Keeps :
      (now : ℕ) (s : DeterministicScheduler)
      → IsHeap s.queue
      → all_tasks f s.queue ≡ true
      → Keeps s (pick_fair heapq now s)
  pick_fair-Keeps now s h a =
      elim (Bool-cases (any_under s.config.user_quota_per_minute s.user_counts s.queue)) [
        | inl y ↦
            let p = pick_fair-IsFair heapq now s y in
            task-Keeps s _ p.task (pick_fair-IsSame heapq now s) p.heap p.taken p.kept a
        | inr n ↦ rw (pick_fair_rest heapq now s n) (pop_next-Keeps s h a)
      ]

  after_reset-Keeps :
      (s s' : DeterministicScheduler) (next : Next heapq)
      → IsSame s s'
      → Keeps s' next
      → Keeps s next
  after_reset-Keeps s s' next e k = record {
    same = IsSame-trans s s' next.1 e k.same;
    heap = k.heap;
    rest = k.rest;
    given = k.given;
  }

  pub get_next_task-Keeps :
      (now : ℕ) (s : DeterministicScheduler)
      → IsHeap s.queue
      → all_tasks f s.queue ≡ true
      → Keeps s (get_next_task heapq now s)
  get_next_task-Keeps now s h a = elim (List-cases s.queue) [
    | inl e ↦ nothing-Keeps s _ (get_next_task_empty heapq now s e) h a
    | inr (t, l, e) ↦ elim (Bool-cases (is_fair s.config.policy)) [
      | inl y ↦
          let s' = reset_counts now s.user_last_reset s in
          let (q, same) = reset_counts_kept now s.user_last_reset s in
          rw (get_next_task_fair heapq now s t l (is_fair_only s.config.policy y) e)
            (after_reset-Keeps s s' _ same (pick_fair-Keeps now s' (rw q h) (rw q a)))
      | inr n ↦ Takes-Keeps s _ (get_next_task-Takes heapq now s n h t l e) a
    ]
  ]
