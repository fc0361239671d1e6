-- ===== src/Concurrency/Links.antt =====
-- shared/agent/concurrency.py: what `add_task` does to the nodes that the new task depends on.
use rg_agent_engine.Base.{
  ◌≡◌, refl, ◌⊎◌, Key, true, none, some, List, [], ◌∷◌, ◌==◌, arith, inl, inr, subst, sym,
  Option-cases, Bool-cases,
}
use rg_agent_engine.Base.Lists.{length, member}
use rg_agent_engine.Base.Dict.{Dict, get, put, get-put}
use rg_agent_engine.Concurrency.Graph.{TaskNode, add, link_one, link}
use rg_agent_engine.Concurrency.Nodes.{member-add, length-put}

-- The nodes after the dependents of some were changed, one by one.
pub data Links (id : Key) : Dict TaskNode → Dict TaskNode → Type 0 where
  unchanged : (d d' : Dict TaskNode) → d ≡ d' → Links id d d'
  relink :
      (k : Key) (n : TaskNode) (d d' : Dict TaskNode)
      → get k d ≡ some n
      → Links id (put k (record n { dependents = add id n.dependents }) d) d'
      → Links id d d'

pub link-Links : (id : Key) (deps : List Key) (d : Dict TaskNode) → Links id d (link id deps d)
unfolding link link_one
link-Links id [] d = unchanged d d refl
link-Links id (k ∷ deps) d = elim (Option-cases (get k d)) [
  | inl e ↦
      subst (λ (x : Dict TaskNode). Links id d (link id deps x)) (sym (missing e))
        (link-Links id deps d)
  | inr (n, e) ↦
      subst (λ (x : Dict TaskNode). Links id d (link id deps x)) (sym (found n e))
        (relink k n d _ e
          (link-Links id deps (put k (record n { dependents = add id n.dependents }) d)))
]
  where
    missing : get k d ≡ none → link_one id k d ≡ d
    missing e = ground arith

    found :
        (n : TaskNode)
        → get k d ≡ some n
        → link_one id k d ≡ put k (record n { dependents = add id n.dependents }) d
    found n e = ground arith

pub Links-get :
    {id : Key} (k : Key) (d d' : Dict TaskNode)
    → Links id d d'
    → (m : TaskNode) → get k d' ≡ some m
    → (n : TaskNode) × (get k d ≡ some n) × (m.state ≡ n.state) × (m.depends_on ≡ n.depends_on)
Links-get {id} k d d' (unchanged _ _ e) m h = (m, rw e h, refl, refl)
Links-get {id} k d d' (relink j v _ _ e l) m h =
    let w : TaskNode = record v { dependents = add id v.dependents } in
    let (n, found, state, deps) = Links-get k (put j w d) d' l m h in
    elim (Bool-cases (j == k)) [
      | inl here ↦
          (v, ground arith, ground (arith, get-put j k w d), ground (arith, get-put j k w d))
      | inr other ↦ (n, ground (arith, get-put j k w d), state, deps)
    ]

pub Links-finds :
    {id : Key} (k : Key) (d d' : Dict TaskNode)
    → Links id d d'
    → (n : TaskNode) → get k d ≡ some n
    → (m : TaskNode) × (get k d' ≡ some m) × (m.state ≡ n.state)
Links-finds {id} k d d' (unchanged _ _ e) n h = (n, rw (← e) h, refl)
Links-finds {id} k d d' (relink j v _ _ e l) n h =
    let w : TaskNode = record v { dependents = add id v.dependents } in
    elim (Bool-cases (j == k)) [
      | inl here ↦
          let (m, found, state) =
            Links-finds k (put j w d) d' l w (ground (arith, get-put j k w d)) in
          (m, found, ground arith)
      | inr other ↦
          let (m, found, state) =
            Links-finds k (put j w d) d' l n (ground (arith, get-put j k w d)) in
          (m, found, state)
    ]

pub Links-missing :
    {id : Key} (k : Key) (d d' : Dict TaskNode) → Links id d d' → get k d ≡ none → get k d' ≡ none
Links-missing {id} k d d' (unchanged _ _ e) h = rw (← e) h
Links-missing {id} k d d' (relink j v _ _ e l) h =
    Links-missing k _ d' l
      (ground (arith, get-put j k (record v { dependents = add id v.dependents }) d))

-- A dependent after the change is the new task, or was a dependent before.
pub Links-dependents :
    {id : Key} (k j : Key) (d d' : Dict TaskNode)
    → Links id d d'
    → (m : TaskNode) → get k d' ≡ some m
    → member j m.dependents ≡ true
    → (n : TaskNode) × (get k d ≡ some n) × ((j ≡ id) ⊎ (member j n.dependents ≡ true))
Links-dependents {id} k j d d' (unchanged _ _ e) m h i = (m, rw e h, inr i)
Links-dependents {id} k j d d' (relink a v _ _ e l) m h i =
    let w : TaskNode = record v { dependents = add id v.dependents } in
    let (n, found, from) = Links-dependents k j (put a w d) d' l m h i in
    elim (Bool-cases (a == k)) [
      | inl here ↦ (v, ground arith, ground (arith, get-put a k w d, member-add id j v.dependents))
      | inr other ↦ (n, ground (arith, get-put a k w d), from)
    ]

pub Links-length : {id : Key} (d d' : Dict TaskNode) → Links id d d' → length d' ≡ length d
Links-length d d' (unchanged _ _ e) = rw e refl
Links-length d d' (relink k v _ _ e l) = omega (arith, Links-length _ d' l, length-put k v _ d e)
