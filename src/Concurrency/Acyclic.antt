-- ===== src/Concurrency/Acyclic.antt =====
-- shared/agent/concurrency.py: the search for a cycle on graphs that `add_task` builds.
use rg_agent_engine.Base.{
  ℕ, zero, suc, ◌+◌, ◌≤◌, ◌<◌, ◌≡◌, refl, inl, inr, Key, true, false, not, some, List, [], ◌∷◌,
  ◌++◌, if◌then◌else◌, arith, subst, sym, ◌∙◌, Bool-cases,
}
use rg_agent_engine.Base.Lists.{length, member, remove_first}
use rg_agent_engine.Base.Dict.{Dict, get, has_key, has_key-get}
use rg_agent_engine.Concurrency.Graph.{TaskNode, TaskGraph}
use rg_agent_engine.Concurrency.Nodes.{member-add}
use rg_agent_engine.Concurrency.Cycle.{
  Search, Found, enter_search, leave_search, look_at, look_at_all, dfs, search_all, has_cycle,
}

-- Every dependent has a higher rank than the task it depends on, and a place in the graph.
pub record IsRanked (rank : Key → ℕ) (top : ℕ) (nodes : Dict TaskNode) : Type 0 where
  pub below : (k : Key) (n : TaskNode) → get k nodes ≡ some n → rank k < top
  pub upward :
      (k j : Key) (n : TaskNode)
      → get k nodes ≡ some n
      → member j n.dependents ≡ true
      → rank k < rank j
  pub present :
      (k j : Key) (n : TaskNode)
      → get k nodes ≡ some n
      → member j n.dependents ≡ true
      → has_key j nodes ≡ true

-- The members of the stack have lower ranks.
abbrev Under : (Key → ℕ) → ℕ → List Key → Type 0
Under rank r stack = (j : Key) → member j stack ≡ true → rank j < r

-- The search found no cycle, and left the stack as it was.
abbrev Clean : List Key → Found → Type 0
Clean stack f = (s : Search) × (f ≡ some (false, s)) × (s.rec_stack ≡ stack)

remove_first-append :
    (k : Key) (xs : List Key) → member k xs ≡ false → remove_first k (xs ++ k ∷ []) ≡ xs
remove_first-append k [] h = ground arith
remove_first-append k (x ∷ xs) h = ground (arith, remove_first-append k xs)

leave_search-Clean :
    (id : Key) (stack : List Key) (f : Found)
    → member id stack ≡ false
    → Clean (stack ++ id ∷ []) f
    → Clean stack (leave_search id f)
leave_search-Clean id stack f h (s, e, same) = (
  record s { rec_stack = remove_first id s.rec_stack },
  rw e refl,
  rw same (remove_first-append id stack h),
)

module _ (rank : Key → ℕ) (top : ℕ) (nodes : Dict TaskNode) (r : IsRanked rank top nodes) where
  -- A recursive call that finds nothing from tasks of rank `least` on.
  abbrev FindsNone : ℕ → (Key → Search → Found) → Type 0
  FindsNone least rec =
      (k : Key) (s : Search)
      → has_key k nodes ≡ true
      → least ≤ rank k
      → Under rank (rank k) s.rec_stack
      → Clean s.rec_stack (rec k s)

  look_at-Clean :
      (least : ℕ) (rec : Key → Search → Found) (j : Key) (s : Search)
      → FindsNone least rec
      → has_key j nodes ≡ true
      → least ≤ rank j
      → Under rank least s.rec_stack
      → Clean s.rec_stack (look_at rec j s)
  look_at-Clean least rec j s f has le u = elim (Bool-cases (member j s.visited)) [
    | inl seen ↦ rw seen (s, ground (arith, u j), refl)
    | inr new ↦ rw new (f j s has le (λ i m. omega (arith, u i m)))
  ]

  look_at_all-Clean :
      (least : ℕ) (rec : Key → Search → Found) (deps : List Key) (s : Search)
      → FindsNone least rec
      → ((j : Key) → member j deps ≡ true → (has_key j nodes ≡ true) × (least ≤ rank j))
      → Under rank least s.rec_stack
      → Clean s.rec_stack (look_at_all rec deps s)
  unfolding look_at_all
  look_at_all-Clean least rec [] s f d u = (s, refl, refl)
  look_at_all-Clean least rec (j ∷ deps) s f d u =
      let (has, le) = d j (ground arith) in
      let (s1, first, same) = look_at-Clean least rec j s f has le u in
      let (s2, rest, same') =
        look_at_all-Clean least rec deps s1 f (λ i m. d i (ground arith))
          (λ i m. u i (subst (λ (l : List Key). member i l ≡ true) same m)) in
      (s2, rw first rest, same' ∙ same)

  dfs_found :
      (fuel : ℕ) (k : Key) (s : Search) (n : TaskNode)
      → get k nodes ≡ some n
      → dfs nodes (suc fuel) k s
        ≡ leave_search k (look_at_all (dfs nodes fuel) n.dependents (enter_search k s))
  unfolding dfs
  dfs_found fuel k s n e = rw (e, dfs) refl

  dfs-step :
      (fuel : ℕ) (k : Key) (s : Search)
      → FindsNone (suc (rank k)) (dfs nodes fuel)
      → has_key k nodes ≡ true
      → Under rank (rank k) s.rec_stack
      → Clean s.rec_stack (dfs nodes (suc fuel) k s)
  dfs-step fuel k s f has u =
      let (n, e) = has_key-get k nodes has in
      let absent : member k s.rec_stack ≡ false = ground (arith, u k) in
      let entered : (enter_search k s).rec_stack ≡ s.rec_stack ++ k ∷ [] = ground arith in
      let (s1, all, same) =
        look_at_all-Clean (suc (rank k)) (dfs nodes fuel) n.dependents (enter_search k s) f
          (λ j m. (r.present k j n e m, omega (arith, r.upward k j n e m)))
          (λ j m. ground (arith, member-add k j s.rec_stack, u j)) in
      subst (Clean s.rec_stack) (sym (dfs_found fuel k s n e))
        (leave_search-Clean k s.rec_stack _ absent (s1, all, same ∙ entered))

  dfs-Clean : (fuel least : ℕ) → top ≤ fuel + least → FindsNone least (dfs nodes fuel)
  dfs-Clean zero least c k s has le u =
      let (n, e) = has_key-get k nodes has in absurd (omega (arith, r.below k n e))
  dfs-Clean (suc fuel) least c k s has le u =
      dfs-step fuel k s (dfs-Clean fuel (suc (rank k)) (omega arith)) has u

  search_one-Clean :
      (rec : Key → Search → Found) (k : Key) (s : Search)
      → FindsNone 0 rec
      → has_key k nodes ≡ true
      → s.rec_stack ≡ []
      → Clean [] (if not (member k s.visited) then rec k s else some (false, s))
  search_one-Clean rec k s f has e = elim (Bool-cases (member k s.visited)) [
    | inl seen ↦ rw seen (s, refl, e)
    | inr new ↦
        let (s1, one, same) = f k s has (omega arith) (λ j m. cc (rw e at m)) in
        rw new (s1, one, same ∙ e)
  ]

  search_all-Clean :
      (rec : Key → Search → Found) (d : Dict TaskNode) (s : Search)
      → FindsNone 0 rec
      → ((k : Key) → has_key k d ≡ true → has_key k nodes ≡ true)
      → s.rec_stack ≡ []
      → Clean [] (search_all rec d s)
  unfolding search_all get
  search_all-Clean rec [] s f sub e = (s, refl, e)
  search_all-Clean rec (x ∷ d) s f sub e =
      let (s1, one, same) = search_one-Clean rec x.0 s f (sub x.0 (ground arith)) e in
      let (s2, rest, same') = search_all-Clean rec d s1 f (λ k h. sub k (ground arith)) same in
      (s2, rw one rest, same')

pub has_cycle-IsRanked :
    (g : TaskGraph) (rank : Key → ℕ)
    → IsRanked rank (length g.nodes) g.nodes
    → has_cycle g ≡ some false
unfolding has_cycle
has_cycle-IsRanked g rank r =
    let top = length g.nodes in
    let finds = dfs-Clean rank top g.nodes r (suc top) 0 (omega arith) in
    let (s, found, _) =
      search_all-Clean rank top g.nodes r (dfs g.nodes (suc top)) g.nodes
        (record { visited = []; rec_stack = [] }) finds (λ k h. h) refl in
    rw (found, has_cycle) refl
