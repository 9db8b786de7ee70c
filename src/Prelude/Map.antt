-- ===== src/Prelude/Map.antt =====
-- Go's `map[string]V` as a list of keyed entries. The order of the list stands for the order in
-- which Go iterates over the map, which the language leaves open; no key stands twice in a map
-- that is built by `insert`.
use Prim.Native.String.{String}
use mathlib.Core.Path.{◌≡◌, refl}
use mathlib.Core.Logic.{◌≢◌}
use mathlib.Core.Bool.{Bool, true, false}
use mathlib.Core.Option.{Option, none, some}
use mathlib.Core.List.{List, [], ◌∷◌}
use native.Mathlib.Omega.{arith}
use text.Mathlib.Text.{◌==◌}
use text.Mathlib.TextEquality.{eq_iff}
use text.Mathlib.TextPositions.{eq_refl}
use pentameter.Prelude.Tests.{if◌then◌else◌}

abbrev pub Map {ℓ} : Type ℓ → Type ℓ
Map V = List (String × V)

module _ {ℓ} {V : Type ℓ} where
  -- `v, ok := m[k]`
  unfoldable pub lookup : String → Map V → Option V
  lookup k [] = none
  lookup k ((key, v) ∷ rest) = if key == k then some v else lookup k rest

  -- `m[k] = v`
  unfoldable pub insert : String → V → Map V → Map V
  insert k v [] = (k, v) ∷ []
  insert k v ((key, w) ∷ rest) = if key == k then (key, v) ∷ rest else (key, w) ∷ insert k v rest

  -- `m[k]`, with the zero value of the type for a missing key
  unfoldable pub lookup_or : V → String → Map V → V
  lookup_or z k m = elim (lookup k m) [ none ↦ z | some v ↦ v ]

  unfoldable pub has_key : String → Map V → Bool
  unfolding lookup
  has_key k m = elim (lookup k m) [ none ↦ false | some v ↦ true ]

  abbrev pub keys : Map V → List String
  keys [] = []
  keys ((k, v) ∷ m) = k ∷ keys m

  -- A read after a write.
  pub lookup-insert :
      (written read : String) (v : V) (m : Map V)
      → lookup read (insert written v m) ≡ (if written == read then some v else lookup read m)
  unfolding lookup insert
  lookup-insert written read v [] = refl
  lookup-insert written read v ((key, w) ∷ rest) = ground (
    arith,
    lookup-insert written read v rest,
    eq_iff key written,
    eq_iff key read,
    eq_iff written read,
  )

  pub lookup-insert_self : (k : String) (v : V) (m : Map V) → lookup k (insert k v m) ≡ some v
  lookup-insert_self k v m = simp (lookup-insert, eq_refl)

  pub lookup-insert_ne :
      (k j : String) (v : V) (m : Map V) → k ≢ j → lookup j (insert k v m) ≡ lookup j m
  lookup-insert_ne k j v m ne = ground (arith, lookup-insert k j v m, eq_iff k j)

  pub lookup_or-insert :
      (z : V) (k j : String) (v : V) (m : Map V)
      → lookup_or z j (insert k v m) ≡ (if k == j then v else lookup_or z j m)
  unfolding lookup_or
  lookup_or-insert z k j v m = ground (arith, lookup-insert k j v m)

-- `for k, v := range from { to[k] = v }`
unfoldable pub merge {ℓ} : {V : Type ℓ} → Map V → Map V → Map V
merge [] to = to
merge ((k, v) ∷ from) to = merge from (insert k v to)
