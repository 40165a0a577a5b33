-- ===== src/Inventory/Classifiers.antt =====
-- The classes, the score and the reasons of the analysis of the stock:
-- frontend/src/features/inventory-intelligence/classifiers/index.ts. The score is counted in half
-- points, in which all its terms are whole: 40, 40 * 0.8, 25, 25 * 0.5, 15, 15 * 0.5 and 5.
use royale_ai_platform.Prelude.{
  ℕ, ◌+◌, ◌/◌, Bool, true, false, Option, none, some, List, [], ◌∷◌, ◌++◌, ◌&&◌, not, leb, ltb,
  if◌then◌else◌, sort,
}
use royale_ai_platform.Text.{Text, text, show}
use royale_ai_platform.Text.Table.{Table, table_set}
use royale_ai_platform.Numbers.{Numbers, whole, sum_from}
use royale_ai_platform.Inventory.{
  StockProduct, StockStatus, out_of_stock, stockout_risk, low_stock, healthy, overstock,
  slow_moving, inactive, AbcClass, class_a, class_b, class_c, Priority, critical, high, medium, low,
  no_priority, AnalysisBase,
}

-- `classifyReplenishmentPriority`
unfoldable pub classify_replenishment_priority : ℕ → Priority
classify_replenishment_priority score =
    if leb 80 score
    then critical
    else (if leb 60 score
        then high
        else (if leb 40 score then medium else (if leb 20 score then low else no_priority)))

-- The terms of the score, in half points.
abbrev pub status_points : StockStatus → ℕ
status_points out_of_stock = 80
status_points stockout_risk = 64
status_points low_stock = 0
status_points healthy = 0
status_points overstock = 0
status_points slow_moving = 0
status_points inactive = 0

abbrev pub class_points : AbcClass → ℕ
class_points class_a = 30
class_points class_b = 15
class_points class_c = 0

abbrev pub is_inactive : StockStatus → Bool
is_inactive inactive = true
is_inactive out_of_stock = false
is_inactive stockout_risk = false
is_inactive low_stock = false
is_inactive healthy = false
is_inactive overstock = false
is_inactive slow_moving = false

-- `Math.round` of half points, and `clamp(value, 0, 100)`
abbrev pub round_halves : ℕ → ℕ
round_halves h = (h + 1) / 2

abbrev pub clamp_score : ℕ → ℕ
clamp_score n = if ltb 100 n then 100 else n

-- What is known of a product and its value in `classifyAbc`.
pub record Valued (N : Type 0) : Type 0 where
  pub product_id : Text
  pub sales_value : N

module _ {N : Type 0} (num : Numbers N) where
  open num use {add, mul, div, lt, le, eq, decimal, show_number}

  unfoldable pub classify_stock_status : StockProduct N → N → N → N → StockStatus
  classify_stock_status product available projected days_since =
      if not product.active
      then inactive
      else (if le available (whole num 0)
          then out_of_stock
          else (if le projected (whole num 0) && lt (whole num 0) product.average_daily_sales
              then stockout_risk
              else (if le available product.minimum_stock
                  then low_stock
                  else (if lt (whole num 0) available
                        && eq product.average_daily_sales (whole num 0)
                        && le (whole num 60) days_since
                      then slow_moving
                      else (if lt product.maximum_stock available then overstock else healthy)))))

  abbrev pub a_limit : N
  a_limit = decimal 8 1

  abbrev pub b_limit : N
  b_limit = decimal 95 2

  -- The class of a product from the fractions of the total up to it and before it.
  unfoldable pub abc_class_of : N → N → AbcClass
  abc_class_of fraction previous =
      if le fraction a_limit
      then class_a
      else (if lt previous a_limit
          then class_a
          else (if le fraction b_limit
              then class_b
              else (if lt previous b_limit then class_b else class_c)))

  -- `(a, b) => b.salesValue - a.salesValue` is positive.
  abbrev pub sells_less : Valued N → Valued N → Bool
  sells_less a b = lt a.sales_value b.sales_value

  -- The loop of `classifyAbc`, as the list of its calls of `result.set`.
  unfoldable pub abc_loop : N → N → List (Valued N) → List (Text × AbcClass)
  abc_loop total cumulative [] = []
  abc_loop total cumulative (p ∷ ps) =
      let next = add cumulative p.sales_value in
      (p.product_id, abc_class_of (div next total) (div cumulative total)) ∷ abc_loop total next ps

  abbrev pub sales_values : List (Valued N) → List N
  sales_values [] = []
  sales_values (p ∷ ps) = p.sales_value ∷ sales_values ps

  abbrev pub all_c : List (Valued N) → List (Text × AbcClass)
  all_c [] = []
  all_c (p ∷ ps) = (p.product_id, class_c) ∷ all_c ps

  unfoldable pub abc_entries : List (Valued N) → List (Text × AbcClass)
  abc_entries products =
      let sorted = sort sells_less products in
      let total = sum_from num (whole num 0) (sales_values sorted) in
      if eq total (whole num 0) then all_c sorted else abc_loop total (whole num 0) sorted

  unfoldable pub set_all : Table AbcClass → List (Text × AbcClass) → Table AbcClass
  set_all table [] = table
  set_all table ((id, c) ∷ entries) = set_all (table_set id c table) entries

  -- `classifyAbc`; without products its map is empty.
  unfoldable pub classify_abc : List (Valued N) → Table AbcClass
  classify_abc products = set_all [] (abc_entries products)

  abbrev pub coverage_points : Option N → ℕ
  coverage_points none = 0
  coverage_points (some days) =
      if le days (whole num 3) then 50 else (if le days (whole num 7) then 25 else 0)

  abbrev pub purchase_points : N → ℕ
  purchase_points quantity = if lt (whole num 0) quantity then 10 else 0

  unfoldable pub calculate_replenishment_score : AnalysisBase N → ℕ
  calculate_replenishment_score a =
      if is_inactive a.stock_status
      then 0
      else clamp_score (
          round_halves (
            status_points a.stock_status
            + coverage_points a.stock_coverage_days
            + class_points a.abc_class
            + purchase_points a.suggested_purchase_quantity))

  abbrev pub status_reasons : StockStatus → List Text
  status_reasons out_of_stock = text "Estoque disponível zerado." ∷ []
  status_reasons stockout_risk =
      text "Estoque projetado ficará negativo durante o prazo de reposição." ∷ []
  status_reasons low_stock = text "Estoque disponível abaixo do mínimo." ∷ []
  status_reasons healthy = []
  status_reasons overstock = []
  status_reasons slow_moving = []
  status_reasons inactive = []

  abbrev pub coverage_reasons : Option N → List Text
  coverage_reasons none = []
  coverage_reasons (some days) =
      (if le days (whole num 3)
        then (text "Cobertura estimada inferior a " ++ show 3 ++ text " dias.") ∷ []
        else [])
      ++ (if le days (whole num 7) && lt (whole num 3) days
          then (text "Cobertura estimada abaixo de " ++ show 7 ++ text " dias.") ∷ []
          else [])

  abbrev pub class_reasons : AbcClass → List Text
  class_reasons class_a = text "Produto classificado como curva A." ∷ []
  class_reasons class_b = text "Produto classificado como curva B." ∷ []
  class_reasons class_c = []

  abbrev pub purchase_reasons : N → List Text
  purchase_reasons quantity =
      if lt (whole num 0) quantity
      then (text "Compra sugerida: " ++ show_number quantity ++ text " unidades.") ∷ []
      else []

  abbrev pub late_reasons : StockStatus → List Text
  late_reasons slow_moving = text "Produto sem vendas há 60 dias ou mais." ∷ []
  late_reasons overstock = text "Estoque disponível acima do máximo recomendado." ∷ []
  late_reasons out_of_stock = []
  late_reasons stockout_risk = []
  late_reasons low_stock = []
  late_reasons healthy = []
  late_reasons inactive = []

  abbrev pub or_normal : List Text → List Text
  or_normal [] = text "Estoque dentro da normalidade." ∷ []
  or_normal (reason ∷ reasons) = reason ∷ reasons

  -- `determineReasons`; its first argument is not read.
  unfoldable pub determine_reasons : AnalysisBase N → List Text
  determine_reasons a =
      if is_inactive a.stock_status
      then text "Produto inativo no catálogo." ∷ []
      else or_normal (
          status_reasons a.stock_status
          ++ coverage_reasons a.stock_coverage_days
          ++ class_reasons a.abc_class
          ++ purchase_reasons a.suggested_purchase_quantity
          ++ late_reasons a.stock_status)
