-- ===== src/Base/Expiring.antt =====
-- Tables from keys to items that may expire, for the stores that the tests use.
use Prim.Native.Nat.{ℕ}
use mathlib.Core.Path.{◌≡◌, refl, ap, ◌∙◌}
use mathlib.Core.Logic.{inl, inr}
use mathlib.Core.Bool.{Bool, true, false}
use mathlib.Core.Option.{Option, none, some}
use native.Mathlib.Omega.{arith}
use rg_agent_engine.Base.Tests.{Key, ◌==◌, if◌then◌else◌, is_past, Bool-cases}

-- An item with the time at which it expires, if it does.
pub record Item (A : Type 0) : Type 0 where
  pub item : A
  pub until : Option ℕ

-- `place k x f` is `f` with `x` for the key `k`.
abbrev pub place {ℓ} : {A : Type ℓ} → Key → A → (Key → A) → Key → A
place k x f j = if k == j then x else f j

pub ap_if {ℓ κ} :
    {A : Type ℓ} {B : Type κ} (f : A → B) (b : Bool) (x y : A)
    → f (if b then x else y) ≡ (if b then f x else f y)
ap_if f true x y = refl
ap_if f false x y = refl

pub place_same {ℓ κ} :
    {A : Type ℓ} {B : Type κ} (g : A → B) (k j : Key) (x : A) (f : Key → A)
    → g x ≡ g (f k)
    → g (place k x f j) ≡ g (f j)
place_same g k j x f e = elim (Bool-cases (k == j)) [
  | inl same ↦ let at : k ≡ j = ground arith in rw same (e ∙ ap (λ i. g (f i)) at)
  | inr other ↦ rw other refl
]

module _ {A : Type 0} where
  abbrev pub item_of : Option (Item A) → Option A
  item_of none = none
  item_of (some x) = some x.item

  abbrev pub until_of : Option (Item A) → Option ℕ
  until_of none = none
  until_of (some x) = x.until

  abbrev pub expire_at : ℕ → Option (Item A) → Option (Item A)
  expire_at t none = none
  expire_at t (some x) = some (record { item = x.item; until = some t })

  abbrev pub drop_item : ℕ → Option (Item A) → Option (Item A)
  drop_item now o = if is_past now (until_of o) then none else o

  pub expire_found :
      (t : ℕ) (o : Option (Item A)) (a : A) → item_of o ≡ some a → until_of (expire_at t o) ≡ some t
  expire_found t none a h = cc
  expire_found t (some x) a h = refl

  pub item_kept : (t : ℕ) (o : Option (Item A)) → item_of (expire_at t o) ≡ item_of o
  item_kept t none = refl
  item_kept t (some x) = refl
