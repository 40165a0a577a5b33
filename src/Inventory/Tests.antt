-- ===== src/Inventory/Tests.antt =====
-- The analysis of the stock at examples, in hundredths.
use royale_ai_platform.Prelude.{
  ℕ, ◌*◌, ◌≤◌, false, none, some, List, [], ◌∷◌, ◌++◌, ◌≡◌, refl, ◌↔◌, IsSorted, IsPairwise, ◌⊎◌,
  All, length,
}
use mathlib.Core.List.{Perm}
use royale_ai_platform.Text.{text}
use royale_ai_platform.Numbers.Hundredths.{hundredths, hundredths-AreOrdered}
use royale_ai_platform.Inventory.{AnalysisBase, InventoryAnalysis, out_of_stock, class_a, critical}
use royale_ai_platform.Inventory.Classifiers.{Valued, abc_entries}
use royale_ai_platform.Inventory.Service.{InventorySummary, analysis_of, build_summary}
use royale_ai_platform.Inventory.Scores.{IsCovering3, analysis_of-critical_iff}
use royale_ai_platform.Inventory.Curve.{
  is_worse, SellsAtLeast, entry_ids, product_ids, total_value, IsLedByA, abc_entries-IsSorted,
}
use royale_ai_platform.Inventory.Summary.{build_summary-top, ScoresAtLeast}

-- A product that has run out, with the coverage in days.
abbrev sold_out : ℕ → AnalysisBase ℕ
sold_out days = record {
  product_id = text "p1";
  sku = text "s1";
  product_name = text "Caneta";
  available_stock = 0;
  stock_coverage_days = some (days * 100);
  stock_turnover = none;
  projected_stock_after_lead_time = 0;
  suggested_purchase_quantity = 1000;
  gross_margin = 100;
  gross_margin_percentage = none;
  days_since_last_sale = 200;
  abc_class = class_a;
  stock_status = out_of_stock;
  cost = 300;
}

analysis_of-critical_iff_example :
    ((analysis_of hundredths (sold_out 2)).replenishment_priority ≡ critical)
    ↔ ((out_of_stock ≡ out_of_stock) × IsCovering3 hundredths (some 200) × (class_a ≡ class_a))
analysis_of-critical_iff_example = analysis_of-critical_iff hundredths (sold_out 2)

abbrev three_products : List (Valued ℕ)
three_products =
    record { product_id = text "p1"; sales_value = 500 }
    ∷ record { product_id = text "p2"; sales_value = 9000 }
    ∷ record { product_id = text "p3"; sales_value = 500 }
    ∷ []

abc_entries-IsSorted_example :
    (sorted : List (Valued ℕ)) × Perm sorted three_products
    × IsPairwise (SellsAtLeast hundredths hundredths-AreOrdered) sorted
    × (entry_ids hundredths hundredths-AreOrdered (abc_entries hundredths three_products)
        ≡ product_ids hundredths hundredths-AreOrdered sorted)
    × IsSorted is_worse (abc_entries hundredths three_products)
    × (hundredths.eq (total_value hundredths hundredths-AreOrdered three_products) 0 ≡ false
        → IsLedByA hundredths hundredths-AreOrdered (abc_entries hundredths three_products))
abc_entries-IsSorted_example =
    abc_entries-IsSorted hundredths hundredths-AreOrdered three_products (refl, (refl, (refl, tt)))

abbrev two_analyses : List (InventoryAnalysis ℕ)
two_analyses = analysis_of hundredths (sold_out 5) ∷ analysis_of hundredths (sold_out 1) ∷ []

abbrev two_summary : InventorySummary ℕ
two_summary = build_summary hundredths two_analyses

abbrev two_top : List (InventoryAnalysis ℕ)
two_top = two_summary.top_replenishment_products

build_summary-top_example :
    (length two_top ≤ 10)
    × IsPairwise (ScoresAtLeast hundredths) two_top
    × (others : List (InventoryAnalysis ℕ)) × Perm (two_top ++ others) two_analyses
    × All (λ x. All (ScoresAtLeast hundredths x) others) two_top
    × ((length two_top ≡ 10) ⊎ (others ≡ []))
build_summary-top_example = build_summary-top hundredths two_analyses two_top refl
