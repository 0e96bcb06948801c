-- ===== src/Prelude/Maps.antt =====
-- Rust's `BTreeMap<String, V>` as a list of entries in the order of its keys.
use Prim.Native.String.{String, compare}
use Prim.Native.Nat.{Ordering}
use mathlib.Core.Path.{◌≡◌, refl}
use mathlib.Core.Logic.{◌↔◌}
use mathlib.Core.Option.{Option, none, some}
use mathlib.Core.List.{List, [], ◌∷◌}
use native.Mathlib.Omega.{arith}
use text.Mathlib.TextEquality.{path_by_compare, eq_iff}
use text.Mathlib.TextPositions.{compare_refl}
use codex_session_sync.Prelude.Tests.{if◌then◌else◌, string_eq, ◌==◌}

-- The order of texts tells equal ones by `eq`, so it agrees with `==`.
pub compare_eq_iff : (j k : String) → (compare j k ≡ Ordering.eq) ↔ (j ≡ k)
compare_eq_iff j k = (path_by_compare j k, (λ h. rw h (compare_refl k)))

module _ {ℓ} {V : Type ℓ} where
  -- `map.get(key)`
  unfoldable pub get : String → List (String × V) → Option V
  get k [] = none
  get k ((j, v) ∷ m) = if j == k then some v else get k m

  -- `map.insert(key, value)`, less the old value that it returns
  unfoldable pub insert : String → V → List (String × V) → List (String × V)
  insert k v [] = (k, v) ∷ []
  insert k v ((j, w) ∷ m) = elim (compare k j) [
    | Ordering.lt ↦ (k, v) ∷ (j, w) ∷ m
    | Ordering.eq ↦ (k, v) ∷ m
    | Ordering.gt ↦ (j, w) ∷ insert k v m
  ]

  pub get-insert :
      (k j : String) (v : V) (m : List (String × V))
      → get j (insert k v m) ≡ (if k == j then some v else get j m)
  unfolding get insert
  get-insert k j v [] = refl
  get-insert k j v ((i, w) ∷ m) =
      ground (arith, compare_eq_iff k i, eq_iff k i, eq_iff k j, eq_iff i j, get-insert k j v m)
