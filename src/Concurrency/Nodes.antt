-- ===== src/Concurrency/Nodes.antt =====
-- shared/agent/concurrency.py: counting nodes, and what a change to one node does to the others.
use rg_agent_engine.Base.{
  ℕ, ◌+◌, ◌≤◌, ◌≡◌, refl, ◌⊎◌, inl, inr, Key, Bool, true, none, some, List, [], ◌∷◌, ◌++◌, ◌==◌,
  if◌then◌else◌, arith, Bool-cases,
}
use rg_agent_engine.Base.Lists.{length, member}
use rg_agent_engine.Base.Dict.{Dict, get, put}
use rg_agent_engine.Concurrency.Graph.{TaskNode, pending, is_subset, add, map_values, set_blocked}

abbrev pub bit : Bool → ℕ
bit b = if b then 1 else 0

unfoldable pub count_if : (TaskNode → Bool) → Dict TaskNode → ℕ
count_if p [] = 0
count_if p (e ∷ rest) = bit (p e.1) + count_if p rest

pub count_if-put :
    (p : TaskNode → Bool) (k : Key) (n m : TaskNode) (d : Dict TaskNode)
    → get k d ≡ some n
    → count_if p (put k m d) + bit (p n) ≡ count_if p d + bit (p m)
unfolding count_if get put
count_if-put p k n m [] h = cc
count_if-put p k n m (e ∷ d) h = ground (arith, count_if-put p k n m d)

pub count_if-put_new :
    (p : TaskNode → Bool) (k : Key) (m : TaskNode) (d : Dict TaskNode)
    → get k d ≡ none
    → count_if p (put k m d) ≡ count_if p d + bit (p m)
unfolding count_if get put
count_if-put_new p k m [] h = ground arith
count_if-put_new p k m (e ∷ d) h = ground (arith, count_if-put_new p k m d)

pub count_if-map_values :
    (p : TaskNode → Bool) (f : TaskNode → TaskNode) (d : Dict TaskNode)
    → ((n : TaskNode) → p (f n) ≡ p n)
    → count_if p (map_values f d) ≡ count_if p d
unfolding count_if map_values
count_if-map_values p f [] h = refl
count_if-map_values p f (e ∷ d) h = rw (h e.1, count_if-map_values p f d h)

pub count_if-le-length : (p : TaskNode → Bool) (d : Dict TaskNode) → count_if p d ≤ length d
unfolding count_if
count_if-le-length p [] = omega arith
count_if-le-length p (e ∷ d) = ground (arith, count_if-le-length p d)

pub length-put :
    (k : Key) (n m : TaskNode) (d : Dict TaskNode)
    → get k d ≡ some n
    → length (put k m d) ≡ length d
unfolding get put
length-put k n m [] h = cc
length-put k n m (e ∷ d) h = ground (arith, length-put k n m d)

pub length-put_new :
    (k : Key) (m : TaskNode) (d : Dict TaskNode)
    → get k d ≡ none
    → length (put k m d) ≡ length d + 1
unfolding get put
length-put_new k m [] h = omega arith
length-put_new k m (e ∷ d) h = ground (arith, length-put_new k m d)

pub get-map_values :
    (k : Key) (f : TaskNode → TaskNode) (d : Dict TaskNode) {m : TaskNode}
    → get k (map_values f d) ≡ some m
    → (n : TaskNode) × (get k d ≡ some n) × (m ≡ f n)
unfolding get map_values
get-map_values k f [] h = cc
get-map_values k f (e ∷ d) {m} h = elim (Bool-cases (e.0 == k)) [
  | inl same ↦ (e.1, rw same refl, ground arith)
  | inr other ↦
      let (n, found, made) = get-map_values k f d {m = m} (ground arith) in
      (n, rw other found, made)
]

pub get-map_values_found :
    (k : Key) (f : TaskNode → TaskNode) (d : Dict TaskNode) {n : TaskNode}
    → get k d ≡ some n
    → get k (map_values f d) ≡ some (f n)
unfolding get map_values
get-map_values_found k f [] h = cc
get-map_values_found k f (e ∷ d) {n} h = ground (arith, get-map_values_found k f d {n = n})

pub member-append :
    (k j : Key) (xs : List Key) → member j (xs ++ k ∷ []) ≡ true → (j ≡ k) ⊎ (member j xs ≡ true)
member-append k j [] h = ground arith
member-append k j (x ∷ xs) h = ground (arith, member-append k j xs)

pub member-append_left :
    (k j : Key) (xs : List Key) → member j xs ≡ true → member j (xs ++ k ∷ []) ≡ true
member-append_left k j [] h = cc
member-append_left k j (x ∷ xs) h = ground (arith, member-append_left k j xs)

pub member-add :
    (k j : Key) (xs : List Key) → member j (add k xs) ≡ true → (j ≡ k) ⊎ (member j xs ≡ true)
member-add k j xs h = ground (arith, member-append k j xs)

pub member-add_left : (k j : Key) (xs : List Key) → member j xs ≡ true → member j (add k xs) ≡ true
member-add_left k j xs h = ground (arith, member-append_left k j xs)

pub is_subset-add :
    (k : Key) (xs done : List Key) → is_subset xs done ≡ true → is_subset xs (add k done) ≡ true
is_subset-add k [] done h = refl
is_subset-add k (x ∷ xs) done h = ground (arith, member-add_left k x done, is_subset-add k xs done)

pub is_subset-member :
    (j : Key) (xs done : List Key)
    → is_subset xs done ≡ true
    → member j xs ≡ true
    → member j done ≡ true
is_subset-member j [] done h m = cc
is_subset-member j (x ∷ xs) done h m = ground (arith, is_subset-member j xs done)

-- The nodes after some pending ones were blocked, one by one.
pub data Blocks : Dict TaskNode → Dict TaskNode → Type 0 where
  unchanged : (d d' : Dict TaskNode) → d ≡ d' → Blocks d d'
  block :
      (k : Key) (n : TaskNode) (d d' : Dict TaskNode)
      → get k d ≡ some n
      → n.state ≡ pending
      → Blocks (put k (set_blocked n) d) d'
      → Blocks d d'

pub Blocks-trans : (a b c : Dict TaskNode) → Blocks a b → Blocks b c → Blocks a c
Blocks-trans a b c (unchanged _ _ e) q = rw e q
Blocks-trans a b c (block k n _ _ g s p) q = block k n a c g s (Blocks-trans _ b c p q)
