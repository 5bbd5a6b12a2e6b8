-- ===== src/Common/Dict.antt =====
-- A Go map with string keys, as an association list. A read of a missing key gives `none`; the
-- program never ranges over such a map, so the order of its entries is not observed.
use Prim.Native.String.{String}
use mathlib.Core.Path.{◌≡◌, refl}
use mathlib.Core.Bool.{false}
use mathlib.Core.Option.{Option, none, some}
use mathlib.Core.List.{List, [], ◌∷◌}
use native.Mathlib.Omega.{arith}
use text.Mathlib.Text.{◌==◌}
use text.Mathlib.TextEquality.{eq_iff}
use posduif.Common.Tests.{if◌then◌else◌}

abbrev pub Dict {ℓ} : Type ℓ → Type ℓ
Dict V = List (String × V)

module _ {ℓ} {V : Type ℓ} where
  unfoldable pub lookup : String → Dict V → Option V
  lookup key [] = none
  lookup key ((k, v) ∷ entries) = if k == key then some v else lookup key entries

  remove : String → Dict V → Dict V
  remove key [] = []
  remove key ((k, v) ∷ entries) =
      let rest = remove key entries in if k == key then rest else (k, v) ∷ rest

  unfoldable pub insert : String → V → Dict V → Dict V
  unfolding remove
  insert key v entries = (key, v) ∷ remove key entries

  lookup-remove :
      (key other : String) (entries : Dict V)
      → (key == other) ≡ false
      → lookup other (remove key entries) ≡ lookup other entries
  unfolding lookup remove
  lookup-remove key other [] differ = refl
  lookup-remove key other ((k, v) ∷ entries) differ = ground (
    arith,
    lookup-remove key other entries differ,
    eq_iff k key,
    eq_iff k other,
    eq_iff key other,
  )

  -- A read after a write.
  pub lookup-insert :
      (key other : String) (v : V) (entries : Dict V)
      → lookup other (insert key v entries)
        ≡ (if key == other then some v else lookup other entries)
  unfolding lookup insert
  lookup-insert key other v entries = ground (arith, lookup-remove key other entries)
