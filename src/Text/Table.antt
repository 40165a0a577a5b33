-- ===== src/Text/Table.antt =====
-- A JavaScript `Map` whose keys are texts, as a list of its entries in the order of insertion.
use mathlib.Core.Path.{◌≡◌, refl}
use mathlib.Core.Option.{Option, none, some}
use mathlib.Core.List.{List, [], ◌∷◌}
use native.Mathlib.Omega.{arith}
use royale_ai_platform.Prelude.{if◌then◌else◌}
use royale_ai_platform.Text.{Text, text_eq, text_eq_iff}

abbrev pub Table : Type 0 → Type 0
Table V = List (Text × V)

module _ {V : Type 0} where
  unfoldable pub table_get : Text → Table V → Option V
  table_get key [] = none
  table_get key ((k, v) ∷ t) = let rest = table_get key t in if text_eq k key then some v else rest

  -- `set` keeps the place of a key that is there.
  unfoldable pub table_set : Text → V → Table V → Table V
  table_set key v [] = (key, v) ∷ []
  table_set key v ((k, u) ∷ t) =
      let rest = (k, u) ∷ table_set key v t in if text_eq k key then (k, v) ∷ t else rest

  pub table_get-set :
      (key j : Text) (v : V) (t : Table V)
      → table_get j (table_set key v t) ≡ (if text_eq key j then some v else table_get j t)
  unfolding table_get table_set
  table_get-set key j v [] = refl
  table_get-set key j v ((k, u) ∷ t) =
      ground (arith, text_eq_iff k key, text_eq_iff k j, text_eq_iff key j, table_get-set key j v t)
