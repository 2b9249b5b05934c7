-- ===== src/Prelude/Dict.antt =====
-- A Python `dict` with text keys, in insertion order: a list of pairs with one pair for each key.
use Prim.Native.String.{String}
use mathlib.Core.Path.{◌≡◌, refl}
use mathlib.Core.Option.{Option, none, some}
use mathlib.Core.List.{List, [], ◌∷◌}
use native.Mathlib.Omega.{arith}
use text.Mathlib.Text.{◌==◌}
use text.Mathlib.TextEquality.{eq_iff}
use carbon_ops_parser.Prelude.Tests.{if◌then◌else◌}

module _ {ℓ} {V : Type ℓ} where
  -- `d.get(k)`
  unfoldable pub lookup : String → List (String × V) → Option V
  lookup k [] = none
  lookup k ((j, v) ∷ d) = if j == k then some v else lookup k d

  -- `d[k] = v`
  unfoldable pub insert : String → V → List (String × V) → List (String × V)
  insert k v [] = (k, v) ∷ []
  insert k v ((j, w) ∷ d) = if j == k then (j, v) ∷ d else (j, w) ∷ insert k v d

  -- `dict(items)`: of two items with one key, the later one's value stays, at the first one's place.
  unfoldable pub dict_from : List (String × V) → List (String × V) → List (String × V)
  dict_from d [] = d
  dict_from d ((k, v) ∷ items) = dict_from (insert k v d) items

  pub lookup-insert :
      (k j : String) (v : V) (d : List (String × V))
      → lookup j (insert k v d) ≡ (if k == j then some v else lookup j d)
  unfolding lookup insert
  lookup-insert k j v [] = refl
  lookup-insert k j v ((i, w) ∷ d) =
      ground (arith, eq_iff k j, eq_iff i k, eq_iff i j, lookup-insert k j v d)
