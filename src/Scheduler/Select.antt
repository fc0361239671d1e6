-- ===== src/Scheduler/Select.antt =====
-- A queue that `HeapQueue` can be: a list from which the first task is selected.
mod Tests
use mathlib.Core.List.{Perm}
use mathlib.Core.List.Perm
use rg_agent_engine.Base.{
  ◌≡◌, refl, inl, inr, Bool, true, false, not, ◌&&◌, ◌||◌, Option, none, some, List, [], ◌∷◌, arith,
  ltb, Bool-cases, if◌then◌else◌,
}
use rg_agent_engine.Scheduler.Tasks.{
  SortKey, ScheduledTask, HeapQueue, deadline_ltb, key_ltb, is_first, all_tasks,
}

key_ltb-asymm : (a b : SortKey) → key_ltb a b ≡ true → key_ltb b a ≡ false
key_ltb-asymm a b h = ground arith

key_ltb_steps : (a b c : SortKey) → key_ltb a b ≡ false → key_ltb b c ≡ false → key_ltb a c ≡ false
key_ltb_steps a b c p q = ground arith

abbrev earlier : ScheduledTask → ScheduledTask → ScheduledTask
earlier t u = if key_ltb u.sort_key t.sort_key then u else t

abbrev later : ScheduledTask → ScheduledTask → ScheduledTask
later t u = if key_ltb u.sort_key t.sort_key then t else u

unfoldable select : ScheduledTask → List ScheduledTask → ScheduledTask × List ScheduledTask
select t [] = (t, [])
select t (u ∷ l) = let (m, rest) = select (earlier t u) l in (m, later t u ∷ rest)

pair-Perm :
    (t u : ScheduledTask) (l : List ScheduledTask) → Perm (t ∷ u ∷ l) (earlier t u ∷ later t u ∷ l)
pair-Perm t u l = elim (Bool-cases (key_ltb u.sort_key t.sort_key)) [
  | inl y ↦ rw y (Perm.swap u t l)
  | inr n ↦ rw n (Perm.refl (t ∷ u ∷ l))
]

select-Perm :
    (t : ScheduledTask) (l : List ScheduledTask) → Perm (t ∷ l) ((select t l).0 ∷ (select t l).1)
unfolding select
select-Perm t [] = Perm.refl (t ∷ [])
select-Perm t (u ∷ l) =
    let e = earlier t u in
    let w = later t u in
    Perm.trans (pair-Perm t u l) (
      Perm.trans (Perm.swap w e l)
        (Perm.trans (Perm.cons w (select-Perm e l)) (Perm.swap (select e l).0 w (select e l).1)))

pair_lem :
    (t u : ScheduledTask) (m : SortKey)
    → key_ltb (earlier t u).sort_key m ≡ false
    → (key_ltb t.sort_key m ≡ false) × (key_ltb (later t u).sort_key m ≡ false)
pair_lem t u m h = elim (Bool-cases (key_ltb u.sort_key t.sort_key)) [
  | inl y ↦
      let k = rw y at h in
      let t_m = key_ltb_steps t.sort_key u.sort_key m (key_ltb-asymm u.sort_key t.sort_key y) k in
      (t_m, rw y t_m)
  | inr n ↦ let k = rw n at h in (k, rw n (key_ltb_steps u.sort_key t.sort_key m n k))
]

select_lem :
    (t : ScheduledTask) (l : List ScheduledTask)
    → let (m, rest) = select t l in
      (key_ltb t.sort_key m.sort_key ≡ false) × (is_first m rest ≡ true)
unfolding select
select_lem t [] = (ground arith, refl)
select_lem t (u ∷ l) =
    let (first, others) = select_lem (earlier t u) l in
    let (own, other) = pair_lem t u (select (earlier t u) l).0.sort_key first in
    (own, rw (other) others)

abbrev selecting : HeapQueue
selecting = record {
  IsHeap = λ l. Unit;
  heappush = λ t l. t ∷ l;
  heappop = select;
  heapify = λ l. l;
  nil-IsHeap = tt;
  heappush-IsHeap = λ t l h. tt;
  heappush-Perm = λ t l. Perm.refl (t ∷ l);
  heapify-IsHeap = λ l. tt;
  heapify-Perm = Perm.refl;
  heappop-IsHeap = λ t l h. tt;
  heappop-Perm = λ t l h. select-Perm t l;
  heappop-first = λ t l h. (select_lem t l).1;
}
