-- ===== src/Audit/Log.antt =====
-- shared/security/merkle_audit.py: `MerkleAccumulator`.
use rg_agent_engine.Base.{
  ℕ, suc, ◌+◌, ◌-◌, Key, Bool, not, Option, none, some, List, [], ◌∷◌, ◌++◌, map, ◌==◌, leb,
  if◌then◌else◌,
}
use rg_agent_engine.Base.Lists.{length}
use rg_agent_engine.Audit.Hashing.{Text, same_text, AuditEntry, Platform, compute_hash}
use rg_agent_engine.Audit.Tree.{Step, tree_root, proof_from, apply_proof}

pub record Anchor : Type 0 where
  pub index : ℕ
  pub root_hash : Text
  pub timestamp : ℕ
  pub entry_count : ℕ

pub record MerkleAccumulator : Type 0 where
  pub entries : List AuditEntry
  pub leaf_hashes : List Text
  pub root_hash : Text
  pub anchor_interval : ℕ
  pub last_anchor_index : ℕ
  pub anchors : List Anchor

unfoldable pub new_accumulator : ℕ → MerkleAccumulator
new_accumulator interval = record {
  entries = [];
  leaf_hashes = [];
  root_hash = [];
  anchor_interval = interval;
  last_anchor_index = 0;
  anchors = [];
}

-- What the caller of `append` names.
pub record Event : Type 0 where
  pub event_type : Key
  pub actor_id : Key
  pub action : Key
  pub resource : Key
  pub details : Key

-- `self.entries[-1].hash if self.entries else ""`, read from the front
unfoldable pub last_hash : Text → List AuditEntry → Text
last_hash previous [] = previous
last_hash previous (e ∷ entries) = last_hash e.hash entries

abbrev pub new_anchor : ℕ → MerkleAccumulator → Anchor
new_anchor now a = record {
  index = length a.entries;
  root_hash = a.root_hash;
  timestamp = now;
  entry_count = length a.entries - a.last_anchor_index;
}

-- `_create_anchor`
unfoldable pub create_anchor : ℕ → MerkleAccumulator → MerkleAccumulator
create_anchor now a = record a {
  anchors = a.anchors ++ new_anchor now a ∷ [];
  last_anchor_index = length a.entries;
}

module _ (p : Platform) where
  -- `_rebuild_tree`
  abbrev pub rebuild_tree : MerkleAccumulator → MerkleAccumulator
  rebuild_tree a = record a { root_hash = tree_root p a.leaf_hashes }

  -- The entry that `append` makes.
  abbrev pub new_entry : ℕ → Event → MerkleAccumulator → AuditEntry
  new_entry now event a = compute_hash p (last_hash [] a.entries) (record {
    content = record {
      id = p.entry_id (length a.entries) now;
      timestamp = now;
      event_type = event.event_type;
      actor_id = event.actor_id;
      action = event.action;
      resource = event.resource;
      details = event.details;
    };
    hash = [];
  })

  -- The log with one more entry, before it is anchored.
  abbrev pub extended : ℕ → Event → MerkleAccumulator → MerkleAccumulator
  extended now event a =
      let entry = new_entry now event a in
      rebuild_tree (record a {
        entries = a.entries ++ entry ∷ [];
        leaf_hashes = a.leaf_hashes ++ entry.hash ∷ [];
      })

  -- `append`: the entry is the last of the new log
  unfoldable pub append : ℕ → Event → MerkleAccumulator → MerkleAccumulator
  append now event a =
      let a' = extended now event a in
      if leb (a.anchor_interval + a.last_anchor_index) (length a'.entries)
      then create_anchor now a'
      else a'

  -- `get_proof`
  unfoldable pub get_proof : ℕ → MerkleAccumulator → List Step
  get_proof index a =
      if leb (length a.leaf_hashes) index
      then []
      else proof_from p (length a.leaf_hashes) a.leaf_hashes index

  -- `expected_root or self.root_hash`
  abbrev pub expected : Option Text → Text → Text
  expected none root = root
  expected (some []) root = root
  expected (some (c ∷ t)) root = c ∷ t

  -- `verify_proof`
  unfoldable pub verify_proof : Text → List Step → Option Text → MerkleAccumulator → Bool
  verify_proof entry_hash proof expected_root a =
      same_text (apply_proof p entry_hash proof) (expected expected_root a.root_hash)

  -- The loop of `verify_chain` from the entry `i` on. `compute_hash` writes the hash into the
  -- entry before the two are compared, so that the comparison reads the hash just written.
  unfoldable pub verify_from : ℕ → Text → List AuditEntry → Option ℕ × List AuditEntry
  verify_from i previous [] = (none, [])
  verify_from i previous (e ∷ rest) =
      let e' = compute_hash p previous e in
      let expected_hash = p.sha256 (p.dumps e.content previous) in
      let (invalid, rest') = verify_from (suc i) e'.hash rest in
      if not (same_text expected_hash e'.hash) then (some i, e' ∷ rest) else (invalid, e' ∷ rest')

  -- `verify_chain`: the index of the first invalid entry, where there is one
  unfoldable pub verify_chain : MerkleAccumulator → Option ℕ × MerkleAccumulator
  verify_chain a =
      let (invalid, entries) = verify_from 0 [] a.entries in
      (invalid, record a { entries = entries })

-- `get_entry`
unfoldable pub get_entry : Key → List AuditEntry → Option AuditEntry
get_entry id [] = none
get_entry id (e ∷ rest) = if e.content.id == id then some e else get_entry id rest

-- The exported form: `export_state` leaves out the leaf hashes, the interval and the last index.
pub record Exported : Type 0 where
  pub entries : List AuditEntry
  pub root_hash : Text
  pub anchors : List Anchor

abbrev pub export_state : MerkleAccumulator → Exported
export_state a = record { entries = a.entries; root_hash = a.root_hash; anchors = a.anchors }

-- `self.anchors[-1].get("index", 0)` where there are anchors, and the old value where there are none
unfoldable pub last_index : ℕ → List Anchor → ℕ
last_index old [] = old
last_index old (anchor ∷ anchors) = last_index anchor.index anchors

-- `import_state`
unfoldable pub import_state : Platform → Exported → MerkleAccumulator → MerkleAccumulator
import_state p state a = rebuild_tree p (record a {
  entries = state.entries;
  leaf_hashes = map (λ (e : AuditEntry). e.hash) state.entries;
  anchors = state.anchors;
  last_anchor_index = last_index a.last_anchor_index state.anchors;
})
