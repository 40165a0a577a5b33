-- ===== src/Executive/Timeline/Tests.antt =====
-- Runs of the comparison of two snapshots.
use royale_ai_platform.Prelude.{
  ℕ, ◌-◌, some, none, List, [], ◌∷◌, ◌≡◌, refl, arith, IsPairwise, map,
}
use mathlib.Core.List.{Perm}
use royale_ai_platform.Text.{text, show}
use royale_ai_platform.Numbers.Hundredths.{hundredths, hundredths-AreOrdered}
use royale_ai_platform.Executive.{Platform}
use royale_ai_platform.Executive.Timeline.{worsened, Snapshot, TimelineEvent, empty}
use royale_ai_platform.Executive.Timeline.Comparing.{more_is_worse}
use royale_ai_platform.Executive.Timeline.StockChanges.{compare_inventory}
use royale_ai_platform.Executive.Timeline.Merging.{all_events, compare_snapshots}
use royale_ai_platform.Executive.Timeline.Order.{IsPriorTo, compare_snapshots-top}
use royale_ai_platform.Executive.Timeline.Unchanged.{compare_snapshots-same}

abbrev plain : Platform ℕ
plain = record { to_lower_case = λ t. t; to_locale_string = λ n. show n; now_text = text "hoje" }

-- A snapshot with a count of products out of stock and the days that the stock covers.
abbrev snapshot_of : ℕ → ℕ → Snapshot ℕ
snapshot_of out_of_stock days = record {
  created_at = text "hoje";
  market = record { total_orders = 10; highest_growth = none; average_health = 9000 };
  stock = record {
    total_products = 20;
    active_products = 20;
    out_of_stock_count = out_of_stock;
    stockout_risk_count = 0;
    low_stock_count = 0;
    overstock_count = 0;
    slow_moving_count = 0;
    healthy_count = 0;
    total_suggested_purchase_units = 0;
    estimated_suggested_purchase_cost = 0;
    idle_capital_product_count = 0;
    idle_capital_value = 0;
    average_coverage_days = some days;
    critical_replenishment_count = 0;
    top_replenishment_products = [];
  };
  insights = [];
}

-- A rise of the days that the stock covers is taken for a change for the worse.
coverage_rise :
    map
      (λ e. e.direction)
      (compare_inventory hundredths plain (snapshot_of 1 1000) (snapshot_of 1 3000))
    ≡ worsened ∷ []
unfolding compare_inventory more_is_worse
coverage_rise = refl

abbrev shown : List (TimelineEvent ℕ)
shown =
    (compare_snapshots hundredths plain (λ t. 0) (snapshot_of 1 1000) (snapshot_of 6 3000)).events

compare_snapshots-top_example :
    Perm shown (all_events hundredths plain (snapshot_of 1 1000) (snapshot_of 6 3000))
    × IsPairwise (IsPriorTo hundredths hundredths-AreOrdered plain (λ t. 0)) shown
compare_snapshots-top_example =
    compare_snapshots-top hundredths hundredths-AreOrdered plain (λ t. 0) (snapshot_of 1 1000)
      (snapshot_of 6 3000) shown refl

sub_self : (a : ℕ) → a - a ≡ 0
sub_self a = omega arith

compare_snapshots-same_example :
    compare_snapshots hundredths plain (λ t. 0) (snapshot_of 1 1000) (snapshot_of 1 1000)
    ≡ record { events = []; state = empty }
compare_snapshots-same_example =
    compare_snapshots-same hundredths hundredths-AreOrdered sub_self plain (λ t. 0)
      (snapshot_of 1 1000)
