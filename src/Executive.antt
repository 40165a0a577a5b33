-- ===== src/Executive.antt =====
-- The executive insights of the dashboards: frontend/src/features/executive-intelligence and
-- frontend/src/features/executive-prioritization. Here are the types of the first.
mod Tests
pub mod Plurals
pub mod Evaluators
pub mod StockRules
pub mod MarketRules
pub mod Strategies
pub mod Generating
pub mod Prioritization
pub mod Timeline
use royale_ai_platform.Prelude.{ℕ, List, Option}
use royale_ai_platform.Text.{Text, text}
use royale_ai_platform.Inventory.Service.{InventorySummary}

-- `ExecutiveInsightCategory`, of which the rules use two.
pub data Category : Type 0 where
  inventory : Category
  marketplace : Category
  financial : Category
  operations : Category
  sales : Category
  service : Category
  strategic : Category

pub data Severity : Type 0 where
  critical : Severity
  high : Severity
  medium : Severity
  low : Severity
  info : Severity

pub record ExecutiveInsight (N : Type 0) : Type 0 where
  pub id : Text
  pub title : Text
  pub description : Text
  pub category : Category
  pub severity : Severity
  pub priority : N
  pub affected_domains : List Text
  pub recommended_action : Text
  pub estimated_impact : Text
  pub confidence : N
  pub reasons : List Text
  pub created_at : Text

-- What the rules read of `MarketplaceSummaryData`.
pub record MarketplaceSummary (N : Type 0) : Type 0 where
  pub highest_growth : Option N
  pub average_health : N

pub record Input (N : Type 0) : Type 0 where
  pub stock : InventorySummary N
  pub market : MarketplaceSummary N

-- The platform: `toLowerCase`, `toLocaleString("pt-BR")` and `new Date().toISOString()`.
pub record Platform (N : Type 0) : Type 0 where
  pub to_lower_case : Text → Text
  pub to_locale_string : N → Text
  pub now_text : Text
