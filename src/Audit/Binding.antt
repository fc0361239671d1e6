-- ===== src/Audit/Binding.antt =====
-- shared/security/merkle_audit.py: what a proof and a chain of hashes bind.
use mathlib.Core.Option.{some-injective}
use rg_agent_engine.Base.{
  Option, some, ℕ, zero, suc, ◌+◌, ◌/◌, ◌<◌, ◌≡◌, refl, ◌⊎◌, inl, inr, true, false, none, List, [],
  ◌∷◌, arith, ap, sym, ◌∙◌, leb,
}
use rg_agent_engine.Base.Lists.{length, All, All-append}
use rg_agent_engine.Audit.Hashing.{
  Text, same_text-eq, Content, AuditEntry, Platform, Collision, sha256_split,
}
use rg_agent_engine.Audit.Tree.{Step, item, tree_root, siblings, proof_from}
use rg_agent_engine.Audit.Inclusion.{apply_proof-proof_from}
use rg_agent_engine.Audit.Forgery.{
  tree_root_split, IsDigest, Digests, positions, apply_proof_split, next_level-Digests,
}
use rg_agent_engine.Audit.Log.{MerkleAccumulator, get_proof, verify_proof}
use rg_agent_engine.Audit.Keeping.{IsRooted, IsChained, IsKept, hashes}

pub item-IsDigest : (i : ℕ) (l : List Text) → All IsDigest l → i < length l → IsDigest (item i l)
unfolding item
item-IsDigest i [] d h = absurd (omega arith)
item-IsDigest zero (x ∷ l) d h = d.0
item-IsDigest (suc i) (x ∷ l) d h = item-IsDigest i l d.1 (omega arith)

module _ (p : Platform) where
  siblings-Digests : (i index : ℕ) (l : List Text) → All IsDigest l → Digests (siblings p i index l)
  unfolding siblings
  siblings-Digests i index [] d = tt
  siblings-Digests i index (x ∷ []) d = ground arith
  siblings-Digests i index (x ∷ y ∷ l) d = ground (arith, siblings-Digests (i + 2) index l d.1.1)

  module _ (digests : (t : Text) → IsDigest (p.sha256 t)) where
    proof_from-Digests :
        (fuel index : ℕ) (l : List Text) → All IsDigest l → Digests (proof_from p fuel l index)
    unfolding proof_from
    proof_from-Digests zero index l d = tt
    proof_from-Digests (suc fuel) index [] d = tt
    proof_from-Digests (suc fuel) index (x ∷ []) d = tt
    proof_from-Digests (suc fuel) index (x ∷ y ∷ l) d =
        All-append _ (siblings p 0 index (x ∷ y ∷ l)) _ (siblings-Digests 0 index (x ∷ y ∷ l) d)
          (proof_from-Digests fuel (index / 2) _ (next_level-Digests p digests (x ∷ y ∷ l)))

    pub get_proof-Digests :
        (index : ℕ) (a : MerkleAccumulator)
        → All IsDigest a.leaf_hashes
        → Digests (get_proof p index a)
    unfolding get_proof
    get_proof-Digests index a d =
        let own = proof_from-Digests (length a.leaf_hashes) index a.leaf_hashes d in ground arith

    -- Where the root is that of the leaf hashes and these are digests, a proof for the place of a
    -- leaf, that is, with the positions of its own proof and digests for siblings, is accepted for
    -- no other digest than the leaf's, or a collision of SHA-256 is at hand.
    pub verify_proof_binds :
        (a : MerkleAccumulator) (index : ℕ) (hash : Text) (proof : List Step)
        → IsRooted p a
        → All IsDigest a.leaf_hashes
        → index < length a.leaf_hashes
        → IsDigest hash
        → Digests proof
        → positions proof ≡ positions (get_proof p index a)
        → verify_proof p hash proof none a ≡ true
        → (hash ≡ item index a.leaf_hashes) ⊎ Collision p
    unfolding get_proof verify_proof
    verify_proof_binds a index hash proof r d h dh dp e v =
        let inside : leb (length a.leaf_hashes) index ≡ false = ground arith in
        let own = proof_from p (length a.leaf_hashes) a.leaf_hashes index in
        apply_proof_split p digests hash (item index a.leaf_hashes) proof own dh
          (item-IsDigest index _ d h) (rw inside at e) dp
          (rw inside at (get_proof-Digests index a d))
          (same_text-eq _ _ v
            ∙ r
            ∙ sym (
                apply_proof-proof_from p (length a.leaf_hashes) index a.leaf_hashes (omega arith)
                  h))

  same_cons :
      {x y : AuditEntry} {l m : List AuditEntry}
      → x.content ≡ y.content
      → x.hash ≡ y.hash
      → l ≡ m
      → x ∷ l ≡ y ∷ m
  same_cons c h rest i = record { content = c i; hash = h i } ∷ rest i

  -- `json.loads` gives back the fields and the previous hash of each entry.
  abbrev pub AreRead : (Text → Option (Content × Text)) → Text → List AuditEntry → Type 0
  AreRead loads t [] = Unit
  AreRead loads t (x ∷ l) =
      (loads (p.dumps x.content t) ≡ some (x.content, t)) × AreRead loads x.hash l

  -- Two chains of the same hashes.
  chains_meet :
      (loads : Text → Option (Content × Text)) (t u : Text) (l m : List AuditEntry)
      → AreRead loads t l
      → AreRead loads u m
      → IsChained p t l
      → IsChained p u m
      → hashes l ≡ hashes m
      → (l ≡ m) ⊎ Collision p
  chains_meet loads t u [] [] rl rm cl cm h = inl refl
  chains_meet loads t u [] (y ∷ m) rl rm cl cm h = cc
  chains_meet loads t u (x ∷ l) [] rl rm cl cm h = cc
  chains_meet loads t u (x ∷ l) (y ∷ m) rl rm cl cm h =
      let same : x.hash ≡ y.hash = cc in
      elim (sha256_split p _ _ (sym cl.0 ∙ same ∙ cm.0)) [
        | inr bad ↦ inr bad
        | inl text ↦
            let read = sym rl.0 ∙ ap loads text ∙ rm.0 in
            let content = ap (λ (z : Content × Text). z.0) (some-injective _ _ read) in
            elim (chains_meet loads x.hash y.hash l m rl.1 rm.1 cl.1 cm.1 cc) [
              | inl rest ↦ inl (same_cons content same rest)
              | inr bad ↦ inr bad
            ]
      ]

  length-hashes : (l : List AuditEntry) → length (hashes l) ≡ length l
  length-hashes [] = refl
  length-hashes (x ∷ l) = omega (arith, length-hashes l)

  module _ (digests : (t : Text) → IsDigest (p.sha256 t)) where
    IsChained-Digests : (t : Text) (l : List AuditEntry) → IsChained p t l → All IsDigest (hashes l)
    IsChained-Digests t [] c = tt
    IsChained-Digests t (x ∷ l) c = (ap length c.0 ∙ digests _, IsChained-Digests x.hash l c.1)

    -- Two kept logs with the same number of entries and the same Merkle root hold the same entries,
    -- in every field, or a collision of SHA-256 is at hand. Digests have their 64 characters, and each
    -- entry of both logs is one whose fields `json.loads` gives back from the text that was hashed.
    pub root_binds :
        (loads : Text → Option (Content × Text)) (a b : MerkleAccumulator)
        → AreRead loads [] a.entries
        → AreRead loads [] b.entries
        → IsKept p a
        → IsKept p b
        → length a.entries ≡ length b.entries
        → a.root_hash ≡ b.root_hash
        → (a.entries ≡ b.entries) ⊎ Collision p
    root_binds loads a b ra rb ka kb n h =
        let l = hashes a.entries in
        let m = hashes b.entries in
        let same_length : length l ≡ length m =
          length-hashes a.entries ∙ n ∙ sym (length-hashes b.entries) in
        let root : tree_root p l ≡ tree_root p m =
          rw (← ka.leaves, ← kb.leaves, ← ka.rooted, ← kb.rooted) h in
        elim (tree_root_split p digests l m same_length (IsChained-Digests [] a.entries ka.chained)
          (IsChained-Digests [] b.entries kb.chained) root) [
            | inl same ↦
                chains_meet loads [] [] a.entries b.entries ra rb ka.chained kb.chained same
            | inr bad ↦ inr bad
          ]
