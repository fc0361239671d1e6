-- ===== src/Audit/Tree.antt =====
-- shared/security/merkle_audit.py: the Merkle tree over the leaf hashes, and proofs of inclusion.
use rg_agent_engine.Base.{ℕ, zero, suc, ◌+◌, ◌/◌, List, [], ◌∷◌, ◌++◌, ◌==◌, if◌then◌else◌}
use rg_agent_engine.Base.Lists.{length}
use rg_agent_engine.Audit.Hashing.{Text, Platform}

-- The position of a sibling: `verify_proof` takes any other text than "left" for "right".
pub data Position : Type 0 where
  left right : Position

abbrev pub Step : Type 0
Step = Text × Position

-- `level[i]`, where `i` is in range
unfoldable pub item : ℕ → List Text → Text
item n [] = []
item zero (x ∷ xs) = x
item (suc n) (x ∷ xs) = item n xs

module _ (p : Platform) where
  abbrev pub combine : Text → Text → Text
  combine left_hash right_hash = p.sha256 (left_hash ++ right_hash)

  -- The next level of the tree: a last hash without a partner is joined to itself.
  unfoldable pub next_level : List Text → List Text
  next_level [] = []
  next_level (x ∷ []) = combine x x ∷ []
  next_level (x ∷ y ∷ rest) = combine x y ∷ next_level rest

  -- The loop of `_rebuild_tree`, while a level has more than one hash.
  unfoldable pub climb : ℕ → List Text → List Text
  climb zero level = level
  climb (suc fuel) [] = []
  climb (suc fuel) (x ∷ []) = x ∷ []
  climb (suc fuel) (x ∷ y ∷ rest) = climb fuel (next_level (x ∷ y ∷ rest))

  -- `_rebuild_tree`: each level is shorter, so that the length is fuel enough
  abbrev pub tree_root : List Text → Text
  tree_root leaves = item 0 (climb (length leaves) leaves)

  -- What the `for` loop of `get_proof` adds at one level, from the pair at `i` on.
  unfoldable pub siblings : ℕ → ℕ → List Text → List Step
  siblings i index [] = []
  siblings i index (x ∷ []) =
      if i == index then (x, right) ∷ [] else if i + 1 == index then (x, left) ∷ [] else []
  siblings i index (x ∷ y ∷ rest) =
      let more = siblings (i + 2) index rest in
      if i == index then (y, right) ∷ more else if i + 1 == index then (x, left) ∷ more else more

  unfoldable pub proof_from : ℕ → List Text → ℕ → List Step
  proof_from zero level index = []
  proof_from (suc fuel) [] index = []
  proof_from (suc fuel) (x ∷ []) index = []
  proof_from (suc fuel) (x ∷ y ∷ rest) index =
      siblings 0 index (x ∷ y ∷ rest) ++ proof_from fuel (next_level (x ∷ y ∷ rest)) (index / 2)

  -- The loop of `verify_proof`.
  unfoldable pub apply_proof : Text → List Step → Text
  apply_proof current [] = current
  apply_proof current ((sibling, left) ∷ proof) = apply_proof (combine sibling current) proof
  apply_proof current ((sibling, right) ∷ proof) = apply_proof (combine current sibling) proof
