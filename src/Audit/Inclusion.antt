-- ===== src/Audit/Inclusion.antt =====
-- shared/security/merkle_audit.py: what a proof of inclusion leads to.
use native.Mathlib.Nat.{zero-add}
use rg_agent_engine.Base.{
  ℕ, zero, suc, ◌+◌, ◌/◌, ◌≤◌, ◌<◌, ◌≡◌, refl, List, [], ◌∷◌, ◌++◌, arith, ◌∙◌, ap,
}
use rg_agent_engine.Base.Lists.{length}
use rg_agent_engine.Audit.Hashing.{Text, Platform}
use rg_agent_engine.Audit.Tree.{
  left, right, Step, item, combine, next_level, climb, siblings, proof_from, apply_proof,
}

module _ (p : Platform) where
  pub length-next_level : (level : List Text) → length (next_level p level) ≡ (length level + 1) / 2
  unfolding next_level
  length-next_level [] = omega arith
  length-next_level (x ∷ []) = omega arith
  length-next_level (x ∷ y ∷ rest) = omega (arith, length-next_level rest)

  pub length-climb :
      (fuel : ℕ) (level : List Text) → length level ≤ fuel → length (climb p fuel level) ≤ 1
  unfolding climb
  length-climb zero level h = omega arith
  length-climb (suc fuel) [] h = omega arith
  length-climb (suc fuel) (x ∷ []) h = omega arith
  length-climb (suc fuel) (x ∷ y ∷ rest) h =
      length-climb fuel _ (omega (arith, length-next_level (x ∷ y ∷ rest)))

  pub apply_proof-append :
      (x : Text) (a b : List Step) → apply_proof p x (a ++ b) ≡ apply_proof p (apply_proof p x a) b
  unfolding apply_proof
  apply_proof-append x [] b = refl
  apply_proof-append x ((s, left) ∷ a) b = apply_proof-append (combine p s x) a b
  apply_proof-append x ((s, right) ∷ a) b = apply_proof-append (combine p x s) a b

  -- An index before the pair at hand adds nothing.
  siblings_before : (i index : ℕ) (level : List Text) → index < i → siblings p i index level ≡ []
  unfolding siblings
  siblings_before i index [] h = refl
  siblings_before i index (x ∷ []) h = ground arith
  siblings_before i index (x ∷ y ∷ rest) h = ground (arith, siblings_before (i + 2) index rest)

  -- One level up: the sibling of a hash leads to the hash of their pair.
  apply_proof-siblings :
      (i k : ℕ) (level : List Text)
      → k < length level
      → apply_proof p (item k level) (siblings p i (i + k) level)
        ≡ item (k / 2) (next_level p level)
  unfolding siblings next_level item apply_proof
  apply_proof-siblings i k [] h = absurd (omega arith)
  apply_proof-siblings i zero (x ∷ []) h = ground arith
  apply_proof-siblings i (suc k) (x ∷ []) h = absurd (omega arith)
  apply_proof-siblings i zero (x ∷ y ∷ rest) h = ground (arith, siblings_before (i + 2) i rest)
  apply_proof-siblings i (suc zero) (x ∷ y ∷ rest) h =
      ground (arith, siblings_before (i + 2) (i + 1) rest)
  apply_proof-siblings i (suc (suc k)) (x ∷ y ∷ rest) h =
      ground (arith, apply_proof-siblings (i + 2) k rest)

  pub apply_proof-proof_from :
      (fuel index : ℕ) (level : List Text)
      → length level ≤ fuel
      → index < length level
      → apply_proof p (item index level) (proof_from p fuel level index)
        ≡ item 0 (climb p fuel level)
  unfolding proof_from climb
  apply_proof-proof_from zero index level h k = absurd (omega arith)
  apply_proof-proof_from (suc fuel) index [] h k = absurd (omega arith)
  apply_proof-proof_from (suc fuel) zero (x ∷ []) h k = unfold item apply_proof in refl
  apply_proof-proof_from (suc fuel) (suc index) (x ∷ []) h k = absurd (omega arith)
  apply_proof-proof_from (suc fuel) index (x ∷ y ∷ rest) h k =
      let above = next_level p (x ∷ y ∷ rest) in
      let shorter = length-next_level (x ∷ y ∷ rest) in
      apply_proof-append _ (siblings p 0 index (x ∷ y ∷ rest)) _
      ∙ ap (λ (t : Text). apply_proof p t (proof_from p fuel above (index / 2)))
          (rw zero-add at (apply_proof-siblings 0 index (x ∷ y ∷ rest) k))
      ∙ apply_proof-proof_from fuel (index / 2) above (omega (arith, shorter))
          (omega (arith, shorter))
