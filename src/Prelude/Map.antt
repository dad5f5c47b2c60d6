-- ===== src/Prelude/Map.antt =====
-- Go's `map[string]V` as an association list: `m[k]` and `m[k] = v`.
use Prim.Native.String.{String}
use mathlib.Core.Path.{◌≡◌, refl}
use mathlib.Core.Bool.{Bool, true, false}
use mathlib.Core.List.{List, [], ◌∷◌}
use mathlib.Core.Option.{Option, none, some}
use native.Mathlib.Omega.{arith}
use sigbench.Prelude.Tests.{str_eq, str_eq_iff, if◌then◌else◌}

module _ {ℓ} {V : Type ℓ} where
  -- `_, ok := m[k]`
  unfoldable pub has_key : String → List (String × V) → Bool
  has_key k [] = false
  has_key k ((j, v) ∷ m) = if str_eq j k then true else has_key k m

  unfoldable pub insert : String → V → List (String × V) → List (String × V)
  insert key new [] = (key, new) ∷ []
  insert key new ((j, old) ∷ rest) =
      if str_eq j key then (j, new) ∷ rest else (j, old) ∷ insert key new rest

  unfoldable pub lookup : String → List (String × V) → Option V
  lookup key [] = none
  lookup key ((j, found) ∷ rest) = if str_eq j key then some found else lookup key rest

  -- A write shows at its own key alone.
  pub lookup-insert :
      (k j : String) (new : V) (m : List (String × V))
      → lookup j (insert k new m) ≡ (if str_eq k j then some new else lookup j m)
  unfolding insert lookup
  lookup-insert k j new [] = refl
  lookup-insert k j new ((i, old) ∷ rest) =
      ground (arith, str_eq_iff i k, str_eq_iff i j, str_eq_iff k j, lookup-insert k j new rest)
