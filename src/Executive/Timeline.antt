-- ===== src/Executive/Timeline.antt =====
-- The types of frontend/src/features/executive-timeline, with what its comparators read of a
-- snapshot. The numbers are finite.
mod Tests
pub mod Comparing
pub mod MarketChanges
pub mod StockChanges
pub mod InsightChanges
pub mod Merging
pub mod Names
pub mod Order
pub mod Unchanged
use royale_ai_platform.Prelude.{ℕ, Option, List}
use royale_ai_platform.Text.{Text}
use royale_ai_platform.Inventory.Service.{InventorySummary}
use royale_ai_platform.Executive.{ExecutiveInsight, Severity}

pub data Direction : Type 0 where
  improved : Direction
  worsened : Direction
  unchanged : Direction

pub data TimelineCategory : Type 0 where
  of_marketplace : TimelineCategory
  of_inventory : TimelineCategory
  of_executive : TimelineCategory

-- What is read of `MarketplaceSummaryData`.
pub record MarketReadings (N : Type 0) : Type 0 where
  pub total_orders : ℕ
  pub highest_growth : Option N
  pub average_health : N

pub record Snapshot (N : Type 0) : Type 0 where
  pub created_at : Text
  pub market : MarketReadings N
  pub stock : InventorySummary N
  pub insights : List (ExecutiveInsight N)

pub record TimelineEvent (N : Type 0) : Type 0 where
  pub id : Text
  pub category : TimelineCategory
  pub title : Text
  pub description : Text
  pub direction : Direction
  pub severity : Severity
  pub impact : Text
  pub priority : N
  pub timestamp : Text

pub data TimelineState : Type 0 where
  success : TimelineState
  empty : TimelineState

pub record TimelineResult (N : Type 0) : Type 0 where
  pub events : List (TimelineEvent N)
  pub state : TimelineState
