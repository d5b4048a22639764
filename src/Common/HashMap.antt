-- ===== src/Common/HashMap.antt =====
-- A hash map with numbers for keys, as the list of its entries: `get`, `insert` and `remove` of the
-- hashbrown crate, whose order nothing here looks at.
use Prim.Native.Nat.{ℕ}
use mathlib.Core.Path.{◌≡◌, refl}
use mathlib.Core.Option.{Option, none, some}
use mathlib.Core.List.{List, [], ◌∷◌}
use native.Mathlib.Omega.{arith}
use servente.Common.Tests.{◌==◌, if◌then◌else◌}

module _ {ℓ} {V : Type ℓ} where
  unfoldable pub map_get : ℕ → List (ℕ × V) → Option V
  map_get k [] = none
  map_get k ((j, v) ∷ m) = if j == k then some v else map_get k m

  unfoldable pub map_insert : ℕ → V → List (ℕ × V) → List (ℕ × V)
  map_insert k v [] = (k, v) ∷ []
  map_insert k v ((j, w) ∷ m) = if j == k then (k, v) ∷ m else (j, w) ∷ map_insert k v m

  unfoldable pub map_remove : ℕ → List (ℕ × V) → List (ℕ × V)
  map_remove k [] = []
  map_remove k ((j, v) ∷ m) = if j == k then map_remove k m else (j, v) ∷ map_remove k m

  pub map_get-map_insert :
      (k j : ℕ) (v : V) (m : List (ℕ × V))
      → map_get j (map_insert k v m) ≡ (if k == j then some v else map_get j m)
  unfolding map_get map_insert
  map_get-map_insert k j v [] = refl
  map_get-map_insert k j v ((i, w) ∷ m) = ground (arith, map_get-map_insert k j v m)
