-- ===== src/Base/Maps.antt =====
-- A Go map as an association list: at most the first entry for a key is seen.
use mathlib.Core.Path.{◌≡◌, refl}
use mathlib.Core.Option.{Option, none, some}
use mathlib.Core.List.{List, [], ◌∷◌}
use native.Mathlib.Omega.{arith}
use kyvik.Base.Tests.{if◌then◌else◌}
use kyvik.Base.Equality.{Comparable, ◌==◌}

module _ {ℓ κ} {K : Type ℓ} {V : Type κ} ⦃e : Comparable K⦄ where
  -- `value, ok := entries[key]`.
  unfoldable pub lookup : K → List (K × V) → Option V
  lookup key [] = none
  lookup key ((other, value) ∷ rest) = if other == key then some value else lookup key rest

  -- `delete(entries, key)`.
  unfoldable pub delete : K → List (K × V) → List (K × V)
  delete key [] = []
  delete key ((other, value) ∷ rest) =
      let left = delete key rest in if other == key then left else (other, value) ∷ left

  -- `entries[key] = value`.
  unfoldable pub insert : K → V → List (K × V) → List (K × V)
  insert key value [] = (key, value) ∷ []
  insert key value ((other, old) ∷ rest) =
      let more = insert key value rest in
      if other == key then (key, value) ∷ rest else (other, old) ∷ more

  pub lookup-delete :
      (gone key : K) (entries : List (K × V))
      → lookup key (delete gone entries) ≡ (if gone == key then none else lookup key entries)
  unfolding lookup delete
  lookup-delete gone key [] = ground arith
  lookup-delete gone key ((other, value) ∷ rest) = ground (
    arith,
    e.same_iff gone key,
    e.same_iff other gone,
    e.same_iff other key,
    lookup-delete gone key rest,
  )

  pub lookup-insert :
      (new key : K) (value : V) (entries : List (K × V))
      → lookup key (insert new value entries)
        ≡ (if new == key then some value else lookup key entries)
  unfolding lookup insert
  lookup-insert new key value [] = refl
  lookup-insert new key value ((other, old) ∷ rest) = ground (
    arith,
    e.same_iff new key,
    e.same_iff other new,
    e.same_iff other key,
    lookup-insert new key value rest,
  )
