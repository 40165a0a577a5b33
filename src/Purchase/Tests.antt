-- ===== src/Purchase/Tests.antt =====
-- Recommendations over hundredths.
use royale_ai_platform.Prelude.{ℕ, some, none, [], ◌≡◌, refl}
use royale_ai_platform.Text.{text, show}
use royale_ai_platform.Numbers.Hundredths.{hundredths}
use royale_ai_platform.Inventory.{InventoryAnalysis, healthy, class_a, no_priority}
use royale_ai_platform.Purchase.{
  Platform, immediate, critical, evaluate_urgency, calculate_safe_order_date,
  calculate_recommended_order_date,
}
use royale_ai_platform.Purchase.Service.{build_recommendation}
use royale_ai_platform.Purchase.Urgent.{build_recommendation-immediate}

abbrev plain : Platform ℕ
plain = record { now = 700; to_iso_string = λ n. show n; to_fixed = λ n digits. show n }

abbrev covered_for : ℕ → InventoryAnalysis ℕ
covered_for days = record {
  base = record {
    product_id = text "a";
    sku = text "a";
    product_name = text "a";
    available_stock = 1000;
    stock_coverage_days = some days;
    stock_turnover = none;
    projected_stock_after_lead_time = 0;
    suggested_purchase_quantity = 500;
    gross_margin = 0;
    gross_margin_percentage = none;
    days_since_last_sale = 0;
    abc_class = class_a;
    stock_status = healthy;
    cost = 100;
  };
  replenishment_score = 0;
  replenishment_priority = no_priority;
  reasons = [];
}

-- With five days of stock and a lead time of seven, the date by which ordering is called safe lies
-- after the date by which to order, which is now.
safe_after_lead_time : calculate_safe_order_date hundredths plain 700 (some 500) ≡ show 43200000700
unfolding calculate_safe_order_date
safe_after_lead_time = refl

ordered_now : calculate_recommended_order_date hundredths plain 700 (some 500) ≡ show 700
unfolding calculate_recommended_order_date
ordered_now = refl

five_days_immediate :
    (build_recommendation hundredths plain (covered_for 500) none).urgency ≡ immediate
unfolding build_recommendation evaluate_urgency
five_days_immediate = refl

build_recommendation-immediate_example :
    ((build_recommendation hundredths plain (covered_for 500) none).risk_level ≡ critical)
    × ((build_recommendation hundredths plain (covered_for 500) none).recommended_order_date
        ≡ show 700)
build_recommendation-immediate_example =
    build_recommendation-immediate hundredths plain (covered_for 500) none five_days_immediate
