-- ===== src/Scheduler/Fairness.antt =====
-- shared/agent/scheduler.py: the fair policy.
use mathlib.Core.List.{Perm}
use mathlib.Core.List.Perm
use rg_agent_engine.Base.{
  ℕ, ◌+◌, ◌≡◌, refl, sym, ap, ◌∙◌, inl, inr, Key, Bool, true, false, ◌||◌, none, some, List, [],
  ◌∷◌, arith, ◌-◌, ◌==◌, ltb, if◌then◌else◌, Bool-cases, Option-cases,
}
use rg_agent_engine.Base.Dict.{Dict, put, get-put}
use rg_agent_engine.Scheduler.Tasks.{fair, ScheduledTask, HeapQueue}
use rg_agent_engine.Scheduler.Order.{List-cases, IsSame, IsSame-refl, IsSame-trans, pop_next-IsSame}
use rg_agent_engine.Scheduler.Queue.{
  DeterministicScheduler, Next, count_of, user_of, find_under, reset_counts, pop_next, pick_fair,
  get_fair_task, get_next_task,
}

-- A task of the list has a user under the quota.
abbrev pub any_under : ℕ → Dict ℕ → List ScheduledTask → Bool
any_under quota counts [] = false
any_under quota counts (t ∷ l) = ltb (count_of (user_of t) counts) quota || any_under quota counts l

-- What the search finds.
pub record IsFound (quota : ℕ) (counts : Dict ℕ) (l : List ScheduledTask) : Type 0 where
  pub task : ScheduledTask
  pub others : List ScheduledTask
  pub found : find_under quota counts l ≡ some (task, others)
  pub kept : Perm l (task ∷ others)
  pub under : ltb (count_of (user_of task) counts) quota ≡ true

find_under-IsFound :
    (quota : ℕ) (counts : Dict ℕ) (l : List ScheduledTask)
    → any_under quota counts l ≡ true
    → IsFound quota counts l
unfolding find_under
find_under-IsFound quota counts [] h = ground arith
find_under-IsFound quota counts (t ∷ l) h =
    elim (Bool-cases (ltb (count_of (user_of t) counts) quota)) [
      | inl e ↦ record {
        task = t;
        others = l;
        found = ground arith;
        kept = Perm.refl (t ∷ l);
        under = e;
      }
      | inr e ↦
          let f = find_under-IsFound quota counts l (ground arith) in
          record {
            task = f.task;
            others = t ∷ f.others;
            found = ground (arith, f.found);
            kept = Perm.trans (Perm.cons t f.kept) (Perm.swap f.task t f.others);
            under = f.under;
          }
    ]

find_under-none :
    (quota : ℕ) (counts : Dict ℕ) (l : List ScheduledTask)
    → any_under quota counts l ≡ false
    → find_under quota counts l ≡ none
unfolding find_under
find_under-none quota counts [] h = refl
find_under-none quota counts (t ∷ l) h = ground (arith, find_under-none quota counts l)

pub reset_counts_kept :
    (now : ℕ) (resets : Dict ℕ) (s : DeterministicScheduler)
    → let s' = reset_counts now resets s in (s'.queue ≡ s.queue) × IsSame s s'
unfolding reset_counts
reset_counts_kept now [] s = (refl, IsSame-refl s)
reset_counts_kept now (e ∷ rest) s = elim (Bool-cases (ltb 60 (now - e.1))) [
  | inl y ↦
      let reset : DeterministicScheduler = record s {
        user_counts = put e.0 0 s.user_counts;
        user_last_reset = put e.0 now s.user_last_reset;
      } in
      let (queue, same) = reset_counts_kept now rest reset in
      rw (y, reset_counts)
        (
          queue,
          IsSame-trans s reset _
              (record { config = refl; running = refl; completed = refl; failed = refl }) same,
        )
  | inr n ↦ rw (n, reset_counts) (reset_counts_kept now rest s)
]

count_of-put :
    (user other : Key) (counts : Dict ℕ)
    → count_of other (put user (count_of user counts + 1) counts)
      ≡ (if user == other then count_of other counts + 1 else count_of other counts)
count_of-put user other counts =
    ground (arith, get-put user other (count_of user counts + 1) counts)

module _ (heapq : HeapQueue) where
  open heapq use {IsHeap, heapify-IsHeap, heapify-Perm}

  -- What a fair call gives where the counts are `counts` after the reset.
  pub record IsFair (queue : List ScheduledTask) (quota : ℕ) (counts : Dict ℕ) (next : Next heapq)
      : Type 0 where
    pub task : ScheduledTask
    pub taken : next.0 ≡ some task
    pub under : ltb (count_of (user_of task) counts) quota ≡ true
    pub counted :
        (user : Key)
        → count_of user next.1.user_counts
          ≡ (if user_of task == user then count_of user counts + 1 else count_of user counts)
    pub kept : Perm queue (task ∷ next.1.queue)
    pub heap : IsHeap next.1.queue

  pub pick_fair-IsFair :
      (now : ℕ) (s : DeterministicScheduler)
      → any_under s.config.user_quota_per_minute s.user_counts s.queue ≡ true
      → IsFair s.queue s.config.user_quota_per_minute s.user_counts (pick_fair heapq now s)
  unfolding pick_fair
  pick_fair-IsFair now s h =
      let f = find_under-IsFound s.config.user_quota_per_minute s.user_counts s.queue h in
      rw (f.found, pick_fair)
        (record {
          task = f.task;
          taken = refl;
          under = f.under;
          counted = λ user. count_of-put (user_of f.task) user s.user_counts;
          kept = Perm.trans f.kept (Perm.cons f.task (Perm.symm (heapify-Perm f.others)));
          heap = heapify-IsHeap f.others;
        })

  pub pick_fair-IsSame : (now : ℕ) (s : DeterministicScheduler) → IsSame s (pick_fair heapq now s).1
  unfolding pick_fair pop_next
  pick_fair-IsSame now s =
      elim (Option-cases (find_under s.config.user_quota_per_minute s.user_counts s.queue)) [
        | inl e ↦ rw (e, pick_fair) (pop_next-IsSame heapq s)
        | inr (f, e) ↦
            rw (e, pick_fair)
              (record { config = refl; running = refl; completed = refl; failed = refl })
      ]

  pub pick_fair_rest :
      (now : ℕ) (s : DeterministicScheduler)
      → any_under s.config.user_quota_per_minute s.user_counts s.queue ≡ false
      → pick_fair heapq now s ≡ pop_next heapq s
  unfolding pick_fair
  pick_fair_rest now s h = rw (find_under-none _ s.user_counts s.queue h, pick_fair) refl

  pick_fair_kept :
      (now : ℕ) (s : DeterministicScheduler) (queue : List ScheduledTask) (quota : ℕ)
      → s.queue ≡ queue
      → s.config.user_quota_per_minute ≡ quota
      → any_under quota s.user_counts queue ≡ true
      → IsFair queue quota s.user_counts (pick_fair heapq now s)
  pick_fair_kept now s queue quota q c h = rw (← q, ← c) (pick_fair-IsFair now s (rw (q, c) h))

  pub get_next_task_fair :
      (now : ℕ) (s : DeterministicScheduler) (t : ScheduledTask) (l : List ScheduledTask)
      → s.config.policy ≡ fair
      → s.queue ≡ t ∷ l
      → get_next_task heapq now s ≡ pick_fair heapq now (reset_counts now s.user_last_reset s)
  unfolding get_next_task get_fair_task
  get_next_task_fair now s t l e q = ground (arith, e, q)

  -- Under the fair policy, where the user of some queued task is under the quota after the reset, the
  -- call gives a queued task of such a user and counts it for that user only; the other tasks stay
  -- queued, in a heap.
  pub get_next_task-IsFair :
      (now : ℕ) (s : DeterministicScheduler)
      → s.config.policy ≡ fair
      → any_under s.config.user_quota_per_minute
          (reset_counts now s.user_last_reset s).user_counts
          s.queue
        ≡ true
      → IsFair s.queue s.config.user_quota_per_minute
          (reset_counts now s.user_last_reset s).user_counts
          (get_next_task heapq now s)
  get_next_task-IsFair now s e h = elim (List-cases s.queue) [
    | inl q ↦
        let no : false ≡ true = ap (any_under s.config.user_quota_per_minute _) (sym q) ∙ h in
        ground arith
    | inr (t, l, q) ↦
        let k = reset_counts_kept now s.user_last_reset s in
        rw (get_next_task_fair now s t l e q) (
          pick_fair_kept now _ s.queue s.config.user_quota_per_minute k.0
            (ap (λ c. c.user_quota_per_minute) k.1.config) h)
  ]
