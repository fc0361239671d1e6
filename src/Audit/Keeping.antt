-- ===== src/Audit/Keeping.antt =====
-- shared/security/merkle_audit.py: what a log is in any order of its operations.
use mathlib.Core.List.{map-append}
use rg_agent_engine.Base.{
  ℕ, suc, ◌+◌, ◌≤◌, ◌<◌, ◌≡◌, refl, true, none, List, [], ◌∷◌, ◌++◌, map, arith, leb, false,
}
use rg_agent_engine.Base.Lists.{length, length-append}
use rg_agent_engine.Audit.Hashing.{Text, same_text_refl, AuditEntry, Platform}
use rg_agent_engine.Audit.Tree.{item, climb, tree_root}
use rg_agent_engine.Audit.Inclusion.{apply_proof-proof_from}
use rg_agent_engine.Audit.Log.{
  Anchor, MerkleAccumulator, Event, Exported, new_accumulator, last_hash, create_anchor, append,
  new_entry, new_anchor, extended, get_proof, verify_proof, verify_from, verify_chain, last_index,
  import_state,
}

-- A call on the log that may change it.
pub data Op : Type 0 where
  appends : ℕ → Event → Op
  imports : Exported → Op
  verifies : Op

abbrev pub hashes : List AuditEntry → List Text
hashes = map (λ (e : AuditEntry). e.hash)

module _ (p : Platform) where
  unfoldable pub run : List Op → MerkleAccumulator → MerkleAccumulator
  run [] a = a
  run (appends now event ∷ ops) a = run ops (append p now event a)
  run (imports state ∷ ops) a = run ops (import_state p state a)
  run (verifies ∷ ops) a = run ops (verify_chain p a).1

  -- The root is that of the leaf hashes.
  abbrev pub IsRooted : MerkleAccumulator → Type 0
  IsRooted a = a.root_hash ≡ tree_root p a.leaf_hashes

  append-IsRooted :
      (now : ℕ) (event : Event) (a : MerkleAccumulator) → IsRooted (append p now event a)
  unfolding append create_anchor
  append-IsRooted now event a = ground arith

  pub run-IsRooted : (ops : List Op) (a : MerkleAccumulator) → IsRooted a → IsRooted (run ops a)
  unfolding run
  run-IsRooted [] a h = h
  run-IsRooted (appends now event ∷ ops) a h = run-IsRooted ops _ (append-IsRooted now event a)
  run-IsRooted (imports state ∷ ops) a h = run-IsRooted ops _ (unfold import_state in refl)
  run-IsRooted (verifies ∷ ops) a h = run-IsRooted ops _ (unfold verify_chain in h)

  -- Every hash is that of its entry and of the hash before it.
  abbrev pub IsChained : Text → List AuditEntry → Type 0
  IsChained previous [] = Unit
  IsChained previous (e ∷ rest) =
      (e.hash ≡ p.sha256 (p.dumps e.content previous)) × IsChained e.hash rest

  IsChained-append :
      (previous : Text) (l : List AuditEntry) (e : AuditEntry)
      → IsChained previous l
      → e.hash ≡ p.sha256 (p.dumps e.content (last_hash previous l))
      → IsChained previous (l ++ e ∷ [])
  unfolding last_hash
  IsChained-append previous [] e h q = (q, tt)
  IsChained-append previous (d ∷ l) e h q = (h.0, IsChained-append d.hash l e h.1 q)

  -- What holds of a log that is only appended to.
  pub record IsKept (a : MerkleAccumulator) : Type 0 where
    pub leaves : a.leaf_hashes ≡ hashes a.entries
    pub rooted : IsRooted a
    pub chained : IsChained [] a.entries
    pub indexed : a.last_anchor_index ≡ last_index 0 a.anchors
    pub behind : a.last_anchor_index ≤ length a.entries
    pub recent : 0 < a.anchor_interval → length a.entries < a.last_anchor_index + a.anchor_interval

  last_index-append :
      (old : ℕ) (anchors : List Anchor) (x : Anchor) → last_index old (anchors ++ x ∷ []) ≡ x.index
  unfolding last_index
  last_index-append old [] x = refl
  last_index-append old (y ∷ anchors) x = last_index-append y.index anchors x

  append-IsKept :
      (now : ℕ) (event : Event) (a : MerkleAccumulator) → IsKept a → IsKept (append p now event a)
  unfolding append create_anchor
  append-IsKept now event a k =
      let e = new_entry p now event a in
      ground (
        arith,
        map-append (λ (d : AuditEntry). d.hash) a.entries (e ∷ []),
        length-append a.entries (e ∷ []),
        IsChained-append [] a.entries e k.chained refl,
        last_index-append 0 a.anchors (new_anchor now (extended p now event a)),
      )

  -- The calls of a log that is neither imported nor verified.
  unfoldable pub append_all : List (ℕ × Event) → MerkleAccumulator → MerkleAccumulator
  append_all [] a = a
  append_all ((now, event) ∷ events) a = append_all events (append p now event a)

  -- However many events are appended to a kept log, it stays kept: the leaf hashes are the hashes
  -- of the entries, the root is their Merkle root, every hash is that of its entry and the hash
  -- before it, the last anchor stands at the index on record, and where the interval is positive
  -- fewer entries than the interval have come after it.
  pub append_all-IsKept :
      (events : List (ℕ × Event)) (a : MerkleAccumulator) → IsKept a → IsKept (append_all events a)
  unfolding append_all
  append_all-IsKept [] a k = k
  append_all-IsKept ((now, event) ∷ events) a k =
      append_all-IsKept events _ (append-IsKept now event a k)

  pub new-IsKept : (interval : ℕ) → IsKept (new_accumulator interval)
  unfolding new_accumulator item last_index climb
  new-IsKept interval = ground (arith, tree_root_nil)
    where
      tree_root_nil : ◌≡◌ {A = Text} [] (tree_root p [])
      tree_root_nil = refl

  verify_from_lem :
      (i : ℕ) (previous : Text) (l : List AuditEntry)
      → ((verify_from p i previous l).0 ≡ none) × IsChained previous (verify_from p i previous l).1
  unfolding verify_from
  verify_from_lem i previous [] = (refl, tt)
  verify_from_lem i previous (e ∷ rest) =
      let hash = p.sha256 (p.dumps e.content previous) in
      let (passes, chained) = verify_from_lem (suc i) hash rest in
      rw (same_text_refl hash) (passes, (refl, chained))

  -- Whatever the entries of the log, also where they were changed, `verify_chain` finds no invalid
  -- entry: it writes each hash anew before it compares it. It leaves a chained log behind, with the
  -- leaf hashes, the root and the anchors it had.
  pub verify_chain_passes :
      (a : MerkleAccumulator)
      → let (invalid, a') = verify_chain p a in
        (invalid ≡ none) × IsChained [] a'.entries × (a' ≡ record a { entries = a'.entries })
  unfolding verify_chain
  verify_chain_passes a =
      let (passes, chained) = verify_from_lem 0 [] a.entries in (passes, chained, refl)

  pub rooted_verifies :
      (a : MerkleAccumulator) (index : ℕ)
      → IsRooted a
      → index < length a.leaf_hashes
      → verify_proof p (item index a.leaf_hashes) (get_proof p index a) none a ≡ true
  unfolding get_proof verify_proof
  rooted_verifies a index r h =
      let inside : leb (length a.leaf_hashes) index ≡ false = ground arith in
      let leads =
        apply_proof-proof_from p (length a.leaf_hashes) index a.leaf_hashes (omega arith) h in
      rw (inside, leads, r) (same_text_refl _)

  -- In any log made by appends, imports of any backup and verifications, the proof that `get_proof`
  -- gives for a leaf is accepted by `verify_proof` for that leaf's hash, against the log's own root.
  pub get_proof_verifies :
      (ops : List Op) (interval index : ℕ)
      → index < length (run ops (new_accumulator interval)).leaf_hashes
      → let a = run ops (new_accumulator interval) in
        verify_proof p (item index a.leaf_hashes) (get_proof p index a) none a ≡ true
  get_proof_verifies ops interval index h =
      rooted_verifies _ index (run-IsRooted ops _ (new-IsKept interval).rooted) h
