-- ===== src/Base/Dict.antt =====
-- Python's `dict` with text keys as an association list in insertion order.
use Prim.Native.String.{String}
use mathlib.Core.Path.{◌≡◌, refl}
use mathlib.Core.Bool.{◌||◌}
use mathlib.Core.Option.{Option, none, some}
use mathlib.Core.List.{List, [], ◌∷◌}
use native.Mathlib.Omega.{arith}
use text.Mathlib.Text.{◌==◌}
use text.Mathlib.TextEquality.{eq_iff}
use ha_reolink_battery.Base.Tests.{if◌then◌else◌, is_some}
use ha_reolink_battery.Base.Ids.{contains, discard}

module _ {ℓ} {V : Type ℓ} where
  abbrev pub keys : List (String × V) → List String
  keys [] = []
  keys ((k, v) ∷ d) = k ∷ keys d

  -- `d.get(k)`
  unfoldable pub lookup : String → List (String × V) → Option V
  lookup k [] = none
  lookup k ((j, v) ∷ d) = if j == k then some v else lookup k d

  -- `d.pop(k, None)`
  unfoldable pub erase : String → List (String × V) → List (String × V)
  erase k [] = []
  erase k ((j, v) ∷ d) = let rest = erase k d in if j == k then rest else (j, v) ∷ rest

  -- `d[k] = v`: an old key keeps its place.
  unfoldable pub assign : String → V → List (String × V) → List (String × V)
  assign k v [] = (k, v) ∷ []
  assign k v ((j, w) ∷ d) = if j == k then (j, v) ∷ d else (j, w) ∷ assign k v d

  pub lookup-erase :
      (k j : String) (d : List (String × V))
      → lookup j (erase k d) ≡ (if k == j then none else lookup j d)
  unfolding lookup erase
  lookup-erase k j [] = ground arith
  lookup-erase k j ((i, v) ∷ d) =
      ground (arith, lookup-erase k j d, eq_iff i k, eq_iff i j, eq_iff k j)

  pub lookup-assign :
      (k j : String) (v : V) (d : List (String × V))
      → lookup j (assign k v d) ≡ (if k == j then some v else lookup j d)
  unfolding lookup assign
  lookup-assign k j v [] = refl
  lookup-assign k j v ((i, w) ∷ d) =
      ground (arith, lookup-assign k j v d, eq_iff i k, eq_iff i j, eq_iff k j)

  pub keys-erase : (k : String) (d : List (String × V)) → keys (erase k d) ≡ discard k (keys d)
  unfolding erase discard
  keys-erase k [] = refl
  keys-erase k ((j, v) ∷ d) = ground (arith, keys-erase k d)

  pub contains-keys-assign :
      (k j : String) (v : V) (d : List (String × V))
      → contains j (keys (assign k v d)) ≡ (k == j || contains j (keys d))
  unfolding assign contains
  contains-keys-assign k j v [] = refl
  contains-keys-assign k j v ((i, w) ∷ d) =
      ground (arith, contains-keys-assign k j v d, eq_iff i k, eq_iff i j, eq_iff k j)

  pub is_some-lookup :
      (k : String) (d : List (String × V)) → is_some (lookup k d) ≡ contains k (keys d)
  unfolding lookup contains
  is_some-lookup k [] = refl
  is_some-lookup k ((j, v) ∷ d) = ground (arith, is_some-lookup k d)
