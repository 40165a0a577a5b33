-- ===== src/Executive/Timeline/StockChanges.antt =====
-- `compareInventory` of
-- frontend/src/features/executive-timeline/comparators/inventory-comparator.ts.
use royale_ai_platform.Prelude.{◌+◌, ◌*◌, List, ◌++◌, ◌&&◌, leb, if◌then◌else◌}
use royale_ai_platform.Text.{Text, text, show}
use royale_ai_platform.Numbers.{Numbers, whole, min}
use royale_ai_platform.Executive.{critical, high, medium, Platform}
use royale_ai_platform.Executive.Plurals.{at_most, other_s}
use royale_ai_platform.Executive.Timeline.{Direction, of_inventory, Snapshot, TimelineEvent}
use royale_ai_platform.Executive.Timeline.Comparing.{
  by_direction, is_worsened, more_is_worse, push_if_changed, push_if_both,
}

module _ {N : Type 0} (num : Numbers N) (platform : Platform N) where
  open num use {add, sub, mul, div, lt, le, eq, show_number}
  open platform use {to_locale_string}

  abbrev pub stockout_event : Snapshot N → Snapshot N → Direction → N → TimelineEvent N
  stockout_event previous current direction change = record {
    id = text "tl-inventory-stockout";
    category = of_inventory;
    title = text "Produtos em ruptura";
    description =
        text "Ruptura passou de "
        ++ show previous.stock.out_of_stock_count
        ++ text " para "
        ++ show current.stock.out_of_stock_count
        ++ text " produto"
        ++ other_s current.stock.out_of_stock_count;
    direction = direction;
    severity =
        if is_worsened direction && leb 5 current.stock.out_of_stock_count then critical else high;
    impact =
        by_direction direction (text "Redução de perda de vendas")
          (text "Aumento de perda de vendas");
    priority = whole num (at_most 100 (50 + current.stock.out_of_stock_count * 5));
    timestamp = current.created_at;
  }

  abbrev pub idle_event : Snapshot N → Snapshot N → Direction → N → TimelineEvent N
  idle_event previous current direction change = record {
    id = text "tl-inventory-idle-capital";
    category = of_inventory;
    title = text "Capital parado";
    description =
        text "Capital imobilizado variou de R$ "
        ++ to_locale_string previous.stock.idle_capital_value
        ++ text " para R$ "
        ++ to_locale_string current.stock.idle_capital_value;
    direction = direction;
    severity =
        if le (whole num 50000) current.stock.idle_capital_value
        then critical
        else (if le (whole num 20000) current.stock.idle_capital_value then high else medium);
    impact =
        by_direction direction (text "Liberação de capital de giro")
          (text "Aumento de capital imobilizado");
    priority =
        min num
          (add (whole num 40)
            (min num (div current.stock.idle_capital_value (whole num 2000)) (whole num 40)))
          (whole num 100);
    timestamp = current.created_at;
  }

  abbrev pub critical_event : Snapshot N → Snapshot N → Direction → N → TimelineEvent N
  critical_event previous current direction change = record {
    id = text "tl-inventory-critical";
    category = of_inventory;
    title = text "Reposições críticas";
    description =
        text "Produtos com reposição crítica passaram de "
        ++ show previous.stock.critical_replenishment_count
        ++ text " para "
        ++ show current.stock.critical_replenishment_count;
    direction = direction;
    severity = if leb 5 current.stock.critical_replenishment_count then critical else high;
    impact =
        by_direction direction (text "Redução de risco de ruptura")
          (text "Aumento de risco de ruptura");
    priority = whole num (at_most 100 (45 + current.stock.critical_replenishment_count * 5));
    timestamp = current.created_at;
  }

  abbrev pub coverage_event : Text → N → N → Direction → N → TimelineEvent N
  coverage_event created_at before now direction change = record {
    id = text "tl-inventory-coverage";
    category = of_inventory;
    title = text "Cobertura de estoque";
    description =
        text "Cobertura média passou de "
        ++ show_number before
        ++ text " para "
        ++ show_number now
        ++ text " dias";
    direction = direction;
    severity = medium;
    impact =
        by_direction direction (text "Maior segurança de estoque")
          (text "Redução da segurança de estoque");
    priority = min num (add (whole num 20) change) (whole num 100);
    timestamp = created_at;
  }

  unfoldable pub compare_inventory : Snapshot N → Snapshot N → List (TimelineEvent N)
  compare_inventory previous current =
      push_if_changed num
        (more_is_worse num (whole num current.stock.out_of_stock_count)
          (whole num previous.stock.out_of_stock_count))
        (stockout_event previous current)
      ++ push_if_changed num
          (more_is_worse num current.stock.idle_capital_value previous.stock.idle_capital_value)
          (idle_event previous current)
      ++ push_if_changed num
          (more_is_worse num (whole num current.stock.critical_replenishment_count)
            (whole num previous.stock.critical_replenishment_count))
          (critical_event previous current)
      ++ push_if_both num (more_is_worse num) previous.stock.average_coverage_days
          current.stock.average_coverage_days (coverage_event current.created_at)
