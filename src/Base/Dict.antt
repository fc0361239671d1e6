-- ===== src/Base/Dict.antt =====
-- Python's dict, as the list of its items in insertion order.
use mathlib.Core.Path.{◌≡◌, refl}
use mathlib.Core.Logic.{◌≢◌, ◌⊎◌, inl, inr}
use mathlib.Core.Bool.{Bool, true, false}
use mathlib.Core.Option.{Option, none, some}
use mathlib.Core.List.{List, [], ◌∷◌}
use native.Mathlib.Omega.{arith}
use rg_agent_engine.Base.Tests.{Key, ◌==◌, if◌then◌else◌, Bool-cases, Option-cases}

abbrev pub Dict {ℓ} : Type ℓ → Type ℓ
Dict V = List (Key × V)

module _ {ℓ} {V : Type ℓ} where
  -- `d.get(k)`
  unfoldable pub get : Key → Dict V → Option V
  get k [] = none
  get k (e ∷ rest) = if e.0 == k then some e.1 else get k rest

  -- `d.get(k, default)`
  abbrev pub get_or : Key → V → Dict V → V
  get_or k default d = elim (get k d) [ none ↦ default | some v ↦ v ]

  -- `k in d`
  abbrev pub has_key : Key → Dict V → Bool
  has_key k d = elim (get k d) [ none ↦ false | some v ↦ true ]

  -- `d[k] = v`: a known key keeps its place
  unfoldable pub put : Key → V → Dict V → Dict V
  put k v [] = (k, v) ∷ []
  put k v (e ∷ rest) = if e.0 == k then (e.0, v) ∷ rest else e ∷ put k v rest

  -- `d.pop(k, None)`
  unfoldable pub pop : Key → Dict V → Dict V
  pop k [] = []
  pop k (e ∷ rest) = if e.0 == k then pop k rest else e ∷ pop k rest

  abbrev pub values : Dict V → List V
  values [] = []
  values (e ∷ rest) = e.1 ∷ values rest

  pub get-put :
      (k j : Key) (v : V) (d : Dict V) → get j (put k v d) ≡ (if k == j then some v else get j d)
  unfolding get put
  get-put k j v [] = refl
  get-put k j v (e ∷ rest) = ground (arith, get-put k j v rest)

  pub get-nil {κ} : {A : Type κ} (k : Key) {v : V} → get k [] ≡ some v → A
  unfolding get
  get-nil k h = cc h

  pub get-put_self : (k : Key) (v : V) (d : Dict V) → get k (put k v d) ≡ some v
  get-put_self k v d = ground (arith, get-put k k v d)

  pub get-put_ne : (k j : Key) (v : V) (d : Dict V) → k ≢ j → get j (put k v d) ≡ get j d
  get-put_ne k j v d ne = ground (arith, get-put k j v d)

  pub get-pop : (k j : Key) (d : Dict V) → get j (pop k d) ≡ (if k == j then none else get j d)
  unfolding get pop
  get-pop k j [] = ground arith
  get-pop k j (e ∷ rest) = ground (arith, get-pop k j rest)

  -- What is found after a write is what was written, or was there before.
  pub get-put_inv :
      (k j : Key) (v : V) (d : Dict V) {w : V}
      → get j (put k v d) ≡ some w
      → ((k ≡ j) × (v ≡ w)) ⊎ ((k ≢ j) × (get j d ≡ some w))
  get-put_inv k j v d h = elim (Bool-cases (k == j)) [
    | inl same ↦ inl (ground arith, ground (arith, get-put k j v d))
    | inr other ↦ inr (ground arith, ground (arith, get-put k j v d))
  ]

  pub has_key-get : (k : Key) (d : Dict V) → has_key k d ≡ true → (v : V) × (get k d ≡ some v)
  has_key-get k d h = elim (Option-cases (get k d)) [
    | inl e ↦ cc (rw (e, has_key) at h)
    | inr (v, e) ↦ (v, e)
  ]

  pub put-put : (k : Key) (v w : V) (d : Dict V) → put k w (put k v d) ≡ put k w d
  unfolding put
  put-put k v w [] = ground arith
  put-put k v w (e ∷ rest) = ground (arith, put-put k v w rest)
