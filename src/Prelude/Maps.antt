-- ===== src/Prelude/Maps.antt =====
-- A map from texts as an association list: a `HashMap`, whose order nothing reads.
use sd_jwt_rust.Prelude.Tests.{if◌then◌else◌}
use Prim.Native.String.{String}
use mathlib.Core.Path.{◌≡◌, refl}
use mathlib.Core.Bool.{Bool, true, false}
use mathlib.Core.Option.{Option, none, some}
use mathlib.Core.List.{List, [], ◌∷◌}
use native.Mathlib.Omega.{arith}
use text.Mathlib.Text.{◌==◌}
use text.Mathlib.TextEquality.{eq_iff}

abbrev pub HashMap {ℓ} : Type ℓ → Type ℓ
HashMap V = List (String × V)

module _ {ℓ} {V : Type ℓ} where
  unfoldable pub lookup : String → HashMap V → Option V
  lookup k [] = none
  lookup k ((j, v) ∷ m) = if j == k then some v else lookup k m

  unfoldable pub insert : String → V → HashMap V → HashMap V
  insert k v [] = (k, v) ∷ []
  insert k v ((j, w) ∷ m) = if j == k then (k, v) ∷ m else (j, w) ∷ insert k v m

  unfoldable pub contains_key : HashMap V → String → Bool
  contains_key m k = elim (lookup k m) [ none ↦ false | some v ↦ true ]

  pub lookup-insert :
      (key other : String) (value : V) (map : HashMap V)
      → lookup other (insert key value map)
        ≡ (if key == other then some value else lookup other map)
  unfolding lookup insert
  lookup-insert key other value [] = refl
  lookup-insert key other value ((first, w) ∷ map) = ground (
    arith,
    eq_iff key other,
    eq_iff first key,
    eq_iff first other,
    lookup-insert key other value map,
  )

  pub contains_key-insert :
      (k j : String) (v : V) (m : HashMap V)
      → contains_key (insert k v m) j ≡ (if k == j then true else contains_key m j)
  unfolding contains_key
  contains_key-insert k j v m = ground (arith, lookup-insert k j v m)

  pub contains_key_of_lookup :
      (k : String) (m : HashMap V) {v : V} → lookup k m ≡ some v → contains_key m k ≡ true
  unfolding contains_key
  contains_key_of_lookup k m h = rw (h, contains_key)
