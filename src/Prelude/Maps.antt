-- ===== src/Prelude/Maps.antt =====
-- Go's `map[string]V` as an association list that holds a key once.
use Prim.Native.String.{String}
use mathlib.Core.Path.{◌≡◌, refl}
use mathlib.Core.Option.{Option, none, some}
use mathlib.Core.List.{List, [], ◌∷◌}
use native.Mathlib.Omega.{arith}
use text.Mathlib.Text.{◌==◌}
use text.Mathlib.TextEquality.{eq_iff}
use dibra.Prelude.Tests.{if◌then◌else◌}

abbrev pub Map {ℓ} : Type ℓ → Type ℓ
Map V = List (String × V)

module _ {ℓ} {V : Type ℓ} where
  -- v, ok := m[key]
  unfoldable pub lookup : String → Map V → Option V
  lookup key [] = none
  lookup key ((name, value) ∷ rest) = if name == key then some value else lookup key rest

  abbrev pub map_keys : Map V → List String
  map_keys [] = []
  map_keys ((name, value) ∷ rest) = name ∷ map_keys rest

  -- m[key], the zero value where the key is missing
  unfoldable pub lookup_or : V → String → Map V → V
  lookup_or zero_value key m = elim (lookup key m) [ none ↦ zero_value | some value ↦ value ]

  -- m[key] = value
  unfoldable pub insert : String → V → Map V → Map V
  insert key value [] = (key, value) ∷ []
  insert key value ((name, old) ∷ rest) =
      if name == key then (key, value) ∷ rest else (name, old) ∷ insert key value rest

  pub lookup-insert :
      (key other : String) (value : V) (m : Map V)
      → lookup other (insert key value m) ≡ (if key == other then some value else lookup other m)
  unfolding lookup insert
  lookup-insert key other value [] = refl
  lookup-insert key other value ((name, old) ∷ rest) = ground (
    arith,
    eq_iff key other,
    eq_iff name other,
    eq_iff name key,
    lookup-insert key other value rest,
  )
