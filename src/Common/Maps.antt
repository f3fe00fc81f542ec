-- ===== src/Common/Maps.antt =====
-- JavaScript's `Map` with text keys, as an association list in insertion order: writing an old key
-- keeps its place. Keys occur once in every map that these operations build.
use Prim.Native.String.{String}
use mathlib.Core.Path.{◌≡◌, refl}
use mathlib.Core.Option.{Option, none, some}
use mathlib.Core.List.{List, [], ◌∷◌}
use native.Mathlib.Omega.{arith}
use text.Mathlib.Text.{◌==◌}
use text.Mathlib.TextEquality.{eq_iff}
use wordpress.Common.Tests.{if◌then◌else◌}

abbrev pub Map {ℓ} : Type ℓ → Type ℓ
Map V = List (String × V)

module _ {ℓ} {Value : Type ℓ} where
  unfoldable pub remove : String → Map Value → Map Value
  remove key [] = []
  remove key ((name, value) ∷ entries) =
      let rest = remove key entries in if name == key then rest else (name, value) ∷ rest

  unfoldable pub insert : String → Value → Map Value → Map Value
  insert key new [] = (key, new) ∷ []
  insert key new ((name, old) ∷ entries) =
      let rest = insert key new entries in
      if name == key then (name, new) ∷ entries else (name, old) ∷ rest

  unfoldable pub lookup : String → Map Value → Option Value
  lookup key [] = none
  lookup key ((name, value) ∷ entries) = if name == key then some value else lookup key entries

  pub lookup-remove :
      (removed key : String) (entries : Map Value)
      → lookup key (remove removed entries) ≡ (if removed == key then none else lookup key entries)
  unfolding lookup remove
  lookup-remove removed key [] = ground arith
  lookup-remove removed key ((name, value) ∷ entries) = ground (
    arith,
    lookup-remove removed key entries,
    eq_iff name removed,
    eq_iff name key,
    eq_iff removed key,
  )

  pub lookup-insert :
      (written key : String) (new : Value) (entries : Map Value)
      → lookup key (insert written new entries)
        ≡ (if written == key then some new else lookup key entries)
  unfolding lookup insert
  lookup-insert written key new [] = refl
  lookup-insert written key new ((name, old) ∷ entries) = ground (
    arith,
    lookup-insert written key new entries,
    eq_iff name written,
    eq_iff name key,
    eq_iff written key,
  )
