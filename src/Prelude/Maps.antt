-- ===== src/Prelude/Maps.antt =====
-- A `Map` with string keys as an association list: the first entry of a key counts.
use Prim.Native.String.{String}
use mathlib.Core.Path.{◌≡◌, refl}
use mathlib.Core.List.{List, [], ◌∷◌}
use mathlib.Core.Option.{Option, none, some}
use text.Mathlib.Text.{◌==◌}
use text.Mathlib.TextEquality.{eq_iff}
use native.Mathlib.Omega.{arith}
use ai_content_platform.Prelude.Tests.{if◌then◌else◌}

module _ {ℓ} {V : Type ℓ} where
  -- `map.get(key)`.
  unfoldable pub lookup : (key : String) → List (String × V) → Option V
  lookup key [] = none
  lookup key ((name, held) ∷ rest) =
      let later = lookup key rest in if name == key then some held else later

  -- `map.set(key, value)`: the place of a known key stays.
  unfoldable pub insert : (key : String) → (value : V) → List (String × V) → List (String × V)
  insert key value [] = (key, value) ∷ []
  insert key value ((name, held) ∷ rest) =
      let later = insert key value rest in
      if name == key then (key, value) ∷ rest else (name, held) ∷ later

  -- `map.delete(key)`.
  unfoldable pub remove : (key : String) → List (String × V) → List (String × V)
  remove key [] = []
  remove key ((name, held) ∷ rest) =
      let later = remove key rest in if name == key then later else (name, held) ∷ later

  pub lookup-remove :
      (gone key : String) (map : List (String × V))
      → lookup key (remove gone map) ≡ (if gone == key then none else lookup key map)
  unfolding lookup remove
  lookup-remove gone key [] = ground arith
  lookup-remove gone key ((name, held) ∷ rest) =
      ground
        (arith, eq_iff name gone, eq_iff name key, eq_iff gone key, lookup-remove gone key rest)

  pub lookup-insert :
      (new key : String) (value : V) (map : List (String × V))
      → lookup key (insert new value map) ≡ (if new == key then some value else lookup key map)
  unfolding lookup insert
  lookup-insert new key value [] = refl
  lookup-insert new key value ((name, held) ∷ rest) =
      ground
        (arith, eq_iff name new, eq_iff name key, eq_iff new key, lookup-insert new key value rest)
