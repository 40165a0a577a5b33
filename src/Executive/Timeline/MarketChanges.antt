-- ===== src/Executive/Timeline/MarketChanges.antt =====
-- `compareMarketplace` of
-- frontend/src/features/executive-timeline/comparators/marketplace-comparator.ts.
use royale_ai_platform.Prelude.{List, ◌++◌, if◌then◌else◌}
use royale_ai_platform.Text.{Text, text}
use royale_ai_platform.Numbers.{Numbers, whole, min}
use royale_ai_platform.Executive.{high, medium, Platform}
use royale_ai_platform.Executive.Timeline.{Direction, of_marketplace, Snapshot, TimelineEvent}
use royale_ai_platform.Executive.Timeline.Comparing.{
  by_direction, abs, more_is_better, push_if_changed, push_if_both,
}

module _ {N : Type 0} (num : Numbers N) (platform : Platform N) where
  open num use {add, sub, mul, div, lt, le, eq, show_number}
  open platform use {to_locale_string}

  abbrev pub health_event : Snapshot N → Snapshot N → Direction → N → TimelineEvent N
  health_event previous current direction change = record {
    id = text "tl-marketplace-health";
    category = of_marketplace;
    title = text "Saúde do marketplace";
    description =
        text "Saúde média variou de "
        ++ show_number previous.market.average_health
        ++ text "% para "
        ++ show_number current.market.average_health
        ++ text "%";
    direction = direction;
    severity = if le (whole num 10) (abs num change) then high else medium;
    impact =
        by_direction direction (text "Melhor cenário para vendas")
          (text "Atenção à qualidade dos canais");
    priority = min num (add (whole num 40) (mul (abs num change) (whole num 2))) (whole num 100);
    timestamp = current.created_at;
  }

  abbrev pub growth_event : Text → N → N → Direction → N → TimelineEvent N
  growth_event created_at before now direction change = record {
    id = text "tl-marketplace-growth";
    category = of_marketplace;
    title = text "Crescimento do marketplace";
    description =
        text "Maior crescimento passou de "
        ++ show_number before
        ++ text "% para "
        ++ show_number now
        ++ text "%";
    direction = direction;
    severity = if le (whole num 5) (abs num change) then high else medium;
    impact =
        by_direction direction (text "Aumento de receita esperado")
          (text "Possível perda de tração");
    priority = min num (add (whole num 30) (mul (abs num change) (whole num 2))) (whole num 100);
    timestamp = created_at;
  }

  abbrev pub orders_event : Snapshot N → Snapshot N → Direction → N → TimelineEvent N
  orders_event previous current direction change = record {
    id = text "tl-marketplace-orders";
    category = of_marketplace;
    title = text "Volume de pedidos";
    description =
        text "Pedidos passaram de "
        ++ to_locale_string (whole num previous.market.total_orders)
        ++ text " para "
        ++ to_locale_string (whole num current.market.total_orders);
    direction = direction;
    severity = if le (whole num 300) (abs num change) then high else medium;
    impact = by_direction direction (text "Crescimento de demanda") (text "Redução de demanda");
    priority = min num (add (whole num 20) (div (abs num change) (whole num 30))) (whole num 100);
    timestamp = current.created_at;
  }

  unfoldable pub compare_marketplace : Snapshot N → Snapshot N → List (TimelineEvent N)
  compare_marketplace previous current =
      push_if_changed num
        (more_is_better num current.market.average_health previous.market.average_health)
        (health_event previous current)
      ++ push_if_both num (more_is_better num) previous.market.highest_growth
          current.market.highest_growth (growth_event current.created_at)
      ++ push_if_changed num
          (more_is_better num (whole num current.market.total_orders)
            (whole num previous.market.total_orders))
          (orders_event previous current)
