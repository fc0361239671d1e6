-- ===== src/Audit/Backup.antt =====
-- shared/security/merkle_audit.py: export and import of the state.
use rg_agent_engine.Base.{◌≡◌, ap, sym, ◌∙◌}
use rg_agent_engine.Audit.Hashing.{Platform}
use rg_agent_engine.Audit.Tree.{tree_root}
use rg_agent_engine.Audit.Log.{MerkleAccumulator, new_accumulator, export_state, import_state}
use rg_agent_engine.Audit.Keeping.{IsKept}

module _ (p : Platform) where
  -- Exporting a kept log and importing it into a new log with the same interval gives the log back,
  -- the leaf hashes and the index of the last anchor included, which are not exported.
  pub import_state-export_state :
      (a : MerkleAccumulator)
      → IsKept p a
      → import_state p (export_state a) (new_accumulator a.anchor_interval) ≡ a
  unfolding import_state new_accumulator
  import_state-export_state a k = λ i. record a {
    leaf_hashes = sym k.leaves i;
    root_hash = (ap (tree_root p) (sym k.leaves) ∙ sym k.rooted) i;
    last_anchor_index = sym k.indexed i;
  }
