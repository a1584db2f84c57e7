-- ===== src/Prelude/Dict.antt =====
-- A Go `map[string]V` as an association list. An assignment replaces the first entry of the key, and
-- `delete` drops every entry of it, so that the laws hold of any list.
use Prim.Native.String.{String}
use mathlib.Core.Path.{◌≡◌, refl}
use mathlib.Core.Option.{Option, none, some}
use mathlib.Core.List.{List, [], ◌∷◌}
use native.Mathlib.Omega.{arith}
use text.Mathlib.Text.{◌==◌}
use text.Mathlib.TextEquality.{eq_iff}
use niova_block_csi.Prelude.Tests.{if◌then◌else◌}

abbrev pub Dict {ℓ} : Type ℓ → Type ℓ
Dict V = List (String × V)

module _ {ℓ} {V : Type ℓ} where
  -- `m[key] = value`
  unfoldable pub insert : String → V → Dict V → Dict V
  insert key value [] = (key, value) ∷ []
  insert key value ((k, old) ∷ more) =
      let kept = (k, old) ∷ insert key value more in if k == key then (key, value) ∷ more else kept

  -- `delete(m, key)`
  unfoldable pub delete : String → Dict V → Dict V
  delete key [] = []
  delete key ((k, value) ∷ more) =
      let less = delete key more in if k == key then less else (k, value) ∷ less

  -- `value, ok := m[key]`
  unfoldable pub lookup : String → Dict V → Option V
  lookup key [] = none
  lookup key ((k, value) ∷ more) =
      let later = lookup key more in if k == key then some value else later

  pub lookup-delete :
      (key other : String) (d : Dict V)
      → lookup other (delete key d) ≡ (if key == other then none else lookup other d)
  unfolding lookup delete
  lookup-delete key other [] = ground arith
  lookup-delete key other ((k, value) ∷ more) =
      ground (arith, eq_iff key other, eq_iff k other, eq_iff k key, lookup-delete key other more)

  pub lookup-insert :
      (key other : String) (value : V) (d : Dict V)
      → lookup other (insert key value d) ≡ (if key == other then some value else lookup other d)
  unfolding lookup insert
  lookup-insert key other value [] = refl
  lookup-insert key other value ((k, old) ∷ more) =
      ground
        (arith, eq_iff key other, eq_iff k other, eq_iff k key, lookup-insert key other value more)

-- `m[key]` of a `map[string]string`: the empty text where the key is missing.
unfoldable pub get_text : String → Dict String → String
get_text key m = elim (lookup key m) [ none ↦ "" | some text ↦ text ]

pub ruleset dict_laws = (lookup-insert, lookup-delete)
