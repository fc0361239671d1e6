-- ===== src/Audit/Hashing.antt =====
-- shared/security/merkle_audit.py: entries and their hashes. A hash is a text, the list of its
-- characters, since the source joins hashes; the fields of an entry are only stored and compared.
use rg_agent_engine.Base.{
  ℕ, ◌≡◌, ◌≢◌, ◌⊎◌, inl, inr, Key, List, [], ◌∷◌, ◌++◌, refl, arith, Bool, true, false, ◌&&◌, ◌==◌,
  Bool-cases,
}
use rg_agent_engine.Base.Lists.{length}

abbrev pub Text : Type 0
Text = List ℕ

-- `a == b` on texts
unfoldable pub same_text : Text → Text → Bool
same_text [] [] = true
same_text [] (y ∷ b) = false
same_text (x ∷ a) [] = false
same_text (x ∷ a) (y ∷ b) = x == y && same_text a b

pub same_text_refl : (a : Text) → same_text a a ≡ true
unfolding same_text
same_text_refl [] = refl
same_text_refl (x ∷ a) = ground (arith, same_text_refl a)

-- The fields of `AuditEntry` that its hash covers.
pub record Content : Type 0 where
  pub id : Key
  pub timestamp : ℕ
  pub event_type : Key
  pub actor_id : Key
  pub action : Key
  pub resource : Key
  pub details : Key

pub record AuditEntry : Type 0 where
  pub content : Content
  pub hash : Text

-- What the log takes from the platform: `hashlib.sha256(t.encode()).hexdigest()`, `json.dumps` of
-- the fields and the previous hash, and the text `audit_{n}_{t}`.
pub record Platform : Type 0 where
  pub sha256 : Text → Text
  pub dumps : Content → Text → Text
  pub entry_id : ℕ → ℕ → Key

-- `compute_hash`: the entry with its new hash, which is also what the method returns
abbrev pub compute_hash : Platform → Text → AuditEntry → AuditEntry
compute_hash p previous e = record e { hash = p.sha256 (p.dumps e.content previous) }

-- Two texts with the same digest.
pub record Collision (p : Platform) : Type 0 where
  pub one : Text
  pub other : Text
  pub apart : one ≢ other
  pub same_digest : p.sha256 one ≡ p.sha256 other

pub same_text-eq : (a b : Text) → same_text a b ≡ true → a ≡ b
unfolding same_text
same_text-eq [] [] h = refl
same_text-eq [] (y ∷ b) h = cc
same_text-eq (x ∷ a) [] h = cc
same_text-eq (x ∷ a) (y ∷ b) h = ground (arith, same_text-eq a b)

-- Texts of one length that join to the same text are the same.
pub append_split : (a b c d : Text) → length a ≡ length c → a ++ b ≡ c ++ d → (a ≡ c) × (b ≡ d)
append_split [] b [] d e h = (refl, h)
append_split [] b (z ∷ c) d e h = absurd (omega (arith, e))
append_split (x ∷ a) b [] d e h = absurd (omega (arith, e))
append_split (x ∷ a) b (z ∷ c) d e h = ground (arith, append_split a b c d)

-- Digests agree on the same texts, or a collision is at hand.
pub sha256_split : (p : Platform) (a b : Text) → p.sha256 a ≡ p.sha256 b → (a ≡ b) ⊎ Collision p
sha256_split p a b h = elim (Bool-cases (same_text a b)) [
  | inl e ↦ inl (same_text-eq a b e)
  | inr e ↦ inr (record {
    one = a;
    other = b;
    apart = λ q. ground (arith, same_text_refl b);
    same_digest = h;
  })
]
