-- ===== src/Sales/Tests.antt =====
-- A run of the analysis of the sales.
use royale_ai_platform.Prelude.{ℕ, some, none, List, [], ◌∷◌, ◌≡◌, refl, length, IsPairwise, map}
use mathlib.Core.List.{Perm}
use royale_ai_platform.Text.{Text, text, text_eq}
use royale_ai_platform.Text.Table.{table_get, table_set}
use royale_ai_platform.Numbers.Hundredths.{hundredths, hundredths-AreOrdered}
use royale_ai_platform.Inventory.{InventoryAnalysis, healthy, class_a, no_priority}
use royale_ai_platform.Sales.{
  ProductPerformance, increase_ads, improve_listing, evaluate_opportunity_type,
}
use royale_ai_platform.Sales.Service.{
  Analysis, index_from, find_opportunities, analyze, build_opportunity,
}
use royale_ai_platform.Sales.Order.{GoesBefore, opportunity_ids, live_ids, analyze-IsSorted}

abbrev fixed : ℕ → ℕ → Text
fixed n digits = text "1"

abbrev performance : Text → ℕ → ℕ → ProductPerformance ℕ
performance id views rate = record {
  product_id = id;
  sku = id;
  product_name = id;
  category = text "casa";
  views = views;
  conversions = 100;
  orders = 100;
  revenue = 100000;
  conversion_rate = rate;
  margin_percentage = 5000;
}

abbrev stocked : Text → InventoryAnalysis ℕ
stocked id = record {
  base = record {
    product_id = id;
    sku = id;
    product_name = id;
    available_stock = 10000;
    stock_coverage_days = some 3000;
    stock_turnover = none;
    projected_stock_after_lead_time = 0;
    suggested_purchase_quantity = 0;
    gross_margin = 0;
    gross_margin_percentage = none;
    days_since_last_sale = 0;
    abc_class = class_a;
    stock_status = healthy;
    cost = 100;
  };
  replenishment_score = 0;
  replenishment_priority = no_priority;
  reasons = [];
}

abbrev sold : List (ProductPerformance ℕ)
sold =
    performance (text "a") 60000 1
    ∷ performance (text "b") 200000 8
    ∷ performance (text "c") 5 5
    ∷ []

abbrev stock : List (InventoryAnalysis ℕ)
stock = stocked (text "a") ∷ stocked (text "b") ∷ []

-- The product without a stock is left out.
opportunities_found :
    map
      (λ o. o.opportunity_type)
      (find_opportunities hundredths fixed (index_from hundredths [] stock) sold)
    ≡ improve_listing ∷ increase_ads ∷ []
unfolding find_opportunities index_from build_opportunity evaluate_opportunity_type table_get
    table_set text_eq
opportunities_found = refl

abbrev out : Analysis ℕ
out = analyze hundredths fixed sold stock

analyze-IsSorted_example :
    IsPairwise (GoesBefore hundredths hundredths-AreOrdered) out.opportunities
    × Perm
        (opportunity_ids hundredths hundredths-AreOrdered out.opportunities)
        (live_ids hundredths hundredths-AreOrdered stock sold)
    × (out.summary.products_analyzed ≡ length out.opportunities)
analyze-IsSorted_example =
    analyze-IsSorted hundredths hundredths-AreOrdered fixed sold stock out refl
