-- ===== src/Audit/Forgery.antt =====
-- shared/security/merkle_audit.py: what a forged leaf or a forged proof would need.
use rg_agent_engine.Base.{
  ℕ, zero, suc, ◌≤◌, ◌≡◌, refl, ◌⊎◌, inl, inr, List, [], ◌∷◌, ◌++◌, arith, ◌∙◌, ap, sym,
}
use rg_agent_engine.Base.Lists.{length, All}
use rg_agent_engine.Audit.Hashing.{Text, Platform, Collision, append_split, sha256_split}
use rg_agent_engine.Audit.Tree.{
  Position, left, right, Step, item, combine, next_level, climb, apply_proof, tree_root,
}
use rg_agent_engine.Audit.Inclusion.{length-next_level}

-- A digest is a text of 64 characters.
abbrev pub IsDigest : Text → Type 0
IsDigest t = length t ≡ 64

abbrev pub positions : List Step → List Position
positions [] = []
positions (s ∷ proof) = s.1 ∷ positions proof

abbrev pub Digests : List Step → Type 0
Digests proof = All (λ s. IsDigest s.0) proof

module _ (p : Platform) (digests : (t : Text) → IsDigest (p.sha256 t)) where
  -- Pairs of digests combine to the same hash only if they are the same.
  combine_split :
      (a b c d : Text)
      → IsDigest a
      → IsDigest c
      → combine p a b ≡ combine p c d
      → ((a ≡ c) × (b ≡ d)) ⊎ Collision p
  combine_split a b c d ha hc h = elim (sha256_split p (a ++ b) (c ++ d) h) [
    | inl e ↦ inl (append_split a b c d (ha ∙ sym hc) e)
    | inr bad ↦ inr bad
  ]

  next_level_split :
      (l m : List Text)
      → length l ≡ length m
      → All IsDigest l
      → All IsDigest m
      → next_level p l ≡ next_level p m
      → (l ≡ m) ⊎ Collision p
  unfolding next_level
  next_level_split [] [] e hl hm h = inl refl
  next_level_split [] (y ∷ m) e hl hm h = absurd (omega (arith, e))
  next_level_split (x ∷ l) [] e hl hm h = absurd (omega (arith, e))
  next_level_split (x ∷ []) (y ∷ []) e hl hm h = elim (combine_split x x y y hl.0 hm.0 (cc)) [
    | inl q ↦ inl (cc)
    | inr bad ↦ inr bad
  ]
  next_level_split (x ∷ []) (y ∷ z ∷ m) e hl hm h = absurd (omega (arith, e))
  next_level_split (x ∷ z ∷ l) (y ∷ []) e hl hm h = absurd (omega (arith, e))
  next_level_split (x ∷ z ∷ l) (y ∷ w ∷ m) e hl hm h =
      elim (next_level_split l m (omega (arith, e)) hl.1.1 hm.1.1 (cc)) [
        | inl same ↦ elim (combine_split x z y w hl.0 hm.0 (cc)) [
          | inl q ↦ inl (cc)
          | inr bad ↦ inr bad
        ]
        | inr bad ↦ inr bad
      ]

  pub next_level-Digests : (l : List Text) → All IsDigest (next_level p l)
  unfolding next_level
  next_level-Digests [] = tt
  next_level-Digests (x ∷ []) = (digests _, tt)
  next_level-Digests (x ∷ y ∷ l) = (digests _, next_level-Digests l)

  climb_split :
      (fuel : ℕ) (l m : List Text)
      → length l ≤ fuel
      → length l ≡ length m
      → All IsDigest l
      → All IsDigest m
      → item 0 (climb p fuel l) ≡ item 0 (climb p fuel m)
      → (l ≡ m) ⊎ Collision p
  unfolding climb
  climb_split fuel [] [] k e hl hm h = inl refl
  climb_split fuel [] (y ∷ m) k e hl hm h = absurd (omega (arith, e))
  climb_split fuel (x ∷ l) [] k e hl hm h = absurd (omega (arith, e))
  climb_split zero (x ∷ l) (y ∷ m) k e hl hm h = absurd (omega arith)
  climb_split (suc fuel) (x ∷ []) (y ∷ []) k e hl hm h = inl (unfold item in cc)
  climb_split (suc fuel) (x ∷ []) (y ∷ z ∷ m) k e hl hm h = absurd (omega (arith, e))
  climb_split (suc fuel) (x ∷ z ∷ l) (y ∷ []) k e hl hm h = absurd (omega (arith, e))
  climb_split (suc fuel) (x ∷ z ∷ l) (y ∷ w ∷ m) k e hl hm h =
      let shorter = length-next_level p (x ∷ z ∷ l) in
      let shorter' = length-next_level p (y ∷ w ∷ m) in
      elim (climb_split fuel (next_level p (x ∷ z ∷ l)) (next_level p (y ∷ w ∷ m))
        (omega (arith, shorter)) (omega (arith, shorter, shorter', e)) (next_level-Digests _)
        (next_level-Digests _) h) [
          | inl same ↦ next_level_split (x ∷ z ∷ l) (y ∷ w ∷ m) e hl hm same
          | inr bad ↦ inr bad
        ]

  -- Two logs of the same number of entries with the same Merkle root are the same log, hash by
  -- hash, or a collision of SHA-256 is at hand.
  pub tree_root_split :
      (l m : List Text)
      → length l ≡ length m
      → All IsDigest l
      → All IsDigest m
      → tree_root p l ≡ tree_root p m
      → (l ≡ m) ⊎ Collision p
  tree_root_split l m e hl hm h =
      climb_split (length l) l m (omega arith) e hl hm
        (h ∙ ap (λ (n : ℕ). item 0 (climb p n m)) (sym e))

  pub apply_proof_split :
      (x y : Text) (a b : List Step)
      → IsDigest x
      → IsDigest y
      → positions a ≡ positions b
      → Digests a
      → Digests b
      → apply_proof p x a ≡ apply_proof p y b
      → (x ≡ y) ⊎ Collision p
  unfolding apply_proof
  apply_proof_split x y [] [] hx hy e ha hb h = inl h
  apply_proof_split x y [] (t ∷ b) hx hy e ha hb h = cc
  apply_proof_split x y (s ∷ a) [] hx hy e ha hb h = cc
  apply_proof_split x y ((s, left) ∷ a) ((t, right) ∷ b) hx hy e ha hb h = cc
  apply_proof_split x y ((s, right) ∷ a) ((t, left) ∷ b) hx hy e ha hb h = cc
  apply_proof_split x y ((s, left) ∷ a) ((t, left) ∷ b) hx hy e ha hb h =
      elim (apply_proof_split (combine p s x) (combine p t y) a b (digests _) (digests _) (cc) ha.1
        hb.1 h) [
          | inl same ↦ elim (combine_split s x t y ha.0 hb.0 same) [
            | inl q ↦ inl q.1
            | inr bad ↦ inr bad
          ]
          | inr bad ↦ inr bad
        ]
  apply_proof_split x y ((s, right) ∷ a) ((t, right) ∷ b) hx hy e ha hb h =
      elim (apply_proof_split (combine p x s) (combine p y t) a b (digests _) (digests _) (cc) ha.1
        hb.1 h) [
          | inl same ↦ elim (combine_split x s y t hx hy same) [
            | inl q ↦ inl q.0
            | inr bad ↦ inr bad
          ]
          | inr bad ↦ inr bad
        ]
