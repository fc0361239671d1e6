-- ===== src/Audit/Tests.antt =====
-- shared/security/merkle_audit.py: a log of three entries, under a digest that fills up to 64.
use rg_agent_engine.Base.{
  ℕ, zero, suc, ◌≡◌, refl, ◌⊎◌, true, Option, none, some, List, [], ◌∷◌, arith,
}
use rg_agent_engine.Base.Lists.{length, All}
use rg_agent_engine.Audit.Hashing.{same_text, Text, Content, Platform, Collision}
use rg_agent_engine.Audit.Tree.{item}
use rg_agent_engine.Audit.Forgery.{IsDigest}
use rg_agent_engine.Audit.Binding.{
  item-IsDigest, get_proof-Digests, verify_proof_binds, AreRead, root_binds,
}
use rg_agent_engine.Audit.Log.{
  verify_from, MerkleAccumulator, Event, new_accumulator, append, export_state, import_state,
  get_proof, verify_proof, verify_chain, create_anchor,
}
use rg_agent_engine.Audit.Keeping.{
  rooted_verifies, Op, appends, verifies, run, IsKept, IsChained, append_all, append_all-IsKept,
  new-IsKept, verify_chain_passes, get_proof_verifies,
}
use rg_agent_engine.Audit.Backup.{import_state-export_state}

fit : ℕ → Text → Text
fit zero t = []
fit (suc n) [] = 0 ∷ fit n []
fit (suc n) (c ∷ t) = c ∷ fit n t

length-fit : (n : ℕ) (t : Text) → length (fit n t) ≡ n
unfolding fit
length-fit zero t = refl
length-fit (suc n) [] = omega (arith, length-fit n [])
length-fit (suc n) (c ∷ t) = omega (arith, length-fit n t)

platform : Platform
platform = record {
  sha256 = fit 64;
  dumps =
      λ c t. c.id ∷ c.timestamp ∷ c.event_type ∷ c.actor_id ∷ c.action ∷ c.resource ∷ c.details ∷ t;
  entry_id = λ n now. n;
}

loads : Text → Option (Content × Text)
loads (id ∷ time ∷ event ∷ actor ∷ action ∷ resource ∷ details ∷ t) = some (
  record {
    id = id;
    timestamp = time;
    event_type = event;
    actor_id = actor;
    action = action;
    resource = resource;
    details = details;
  },
  t,
)
loads t = none

digests : (t : Text) → IsDigest (platform.sha256 t)
unfolding platform
digests t = length-fit 64 t

abbrev event : ℕ → Event
event n = record { event_type = n; actor_id = 5; action = 6; resource = 7; details = 8 }

abbrev events : List (ℕ × Event)
events = (100, event 1) ∷ (200, event 2) ∷ (300, event 3) ∷ []

log : MerkleAccumulator
log = append_all platform events (new_accumulator 2)

append_all-IsKept_example : IsKept platform (append_all platform events (new_accumulator 2))
append_all-IsKept_example =
    append_all-IsKept platform events (new_accumulator 2) (new-IsKept platform 2)

log-IsKept : IsKept platform log
unfolding log
log-IsKept = append_all-IsKept_example

log_anchored : log.last_anchor_index ≡ 2
unfolding log append_all append create_anchor new_accumulator
log_anchored = refl

abbrev calls : List Op
calls = appends 100 (event 1) ∷ appends 200 (event 2) ∷ verifies ∷ appends 300 (event 3) ∷ []

calls_leaves : length (run platform calls (new_accumulator 2)).leaf_hashes ≡ 3
unfolding run append create_anchor new_accumulator verify_chain verify_from same_text platform fit
calls_leaves = refl

get_proof_verifies_example :
    let a = run platform calls (new_accumulator 2) in
    verify_proof platform (item 2 a.leaf_hashes) (get_proof platform 2 a) none a ≡ true
get_proof_verifies_example = get_proof_verifies platform calls 2 2 (omega (arith, calls_leaves))

import_state-export_state_example :
    import_state platform (export_state log) (new_accumulator log.anchor_interval) ≡ log
import_state-export_state_example = import_state-export_state platform log log-IsKept

log_leaves : length log.leaf_hashes ≡ 3
unfolding log append_all append create_anchor new_accumulator
log_leaves = refl

log_digests : All IsDigest log.leaf_hashes
unfolding log append_all append create_anchor new_accumulator
log_digests = (digests _, (digests _, (digests _, tt)))

verify_proof_binds_example : (item 1 log.leaf_hashes ≡ item 1 log.leaf_hashes) ⊎ Collision platform
verify_proof_binds_example =
    verify_proof_binds platform digests log 1 (item 1 log.leaf_hashes) (get_proof platform 1 log)
      log-IsKept.rooted log_digests (omega (arith, log_leaves))
      (item-IsDigest 1 log.leaf_hashes log_digests (omega (arith, log_leaves)))
      (get_proof-Digests platform digests 1 log log_digests) refl
      (rooted_verifies platform log 1 log-IsKept.rooted (omega (arith, log_leaves)))

log_read : AreRead platform loads [] log.entries
unfolding log append_all append create_anchor new_accumulator platform loads
log_read = (refl, (refl, (refl, tt)))

root_binds_example : (log.entries ≡ log.entries) ⊎ Collision platform
root_binds_example =
    root_binds platform digests loads log log log_read log_read log-IsKept log-IsKept refl refl

-- The last entry is rewritten in place.
tampered : MerkleAccumulator
tampered = record log {
  entries =
      record {
        content = record {
          id = 0;
          timestamp = 0;
          event_type = 9;
          actor_id = 9;
          action = 9;
          resource = 9;
          details = 9;
        };
        hash = [];
      }
      ∷ [];
}

verify_chain_passes_example :
    let (invalid, a') = verify_chain platform tampered in
    (invalid ≡ none)
    × IsChained platform [] a'.entries
    × (a' ≡ record tampered { entries = a'.entries })
verify_chain_passes_example = verify_chain_passes platform tampered
