-- ===== src/Insights/Domain.antt =====
-- The data of the executive insights: frontend/src/features/executive-insights/domain and types.
-- Dates are milliseconds. `metadata` holds values of any kind that nothing here reads: a text.
use Prim.Native.Nat.{ℕ}
use royale_ai_platform.Prelude.{Bool, true, false, Option, List}
use royale_ai_platform.Text.{Text, text}

pub data Status : Type 0 where
  new active resolved archived : Status

pub data Severity : Type 0 where
  info positive warning critical : Severity

pub data Category : Type 0 where
  marketplace financial inventory sales products purchasing global : Category

abbrev pub status_text : Status → Text
status_text new = text "NEW"
status_text active = text "ACTIVE"
status_text resolved = text "RESOLVED"
status_text archived = text "ARCHIVED"

abbrev pub severity_text : Severity → Text
severity_text info = text "INFO"
severity_text positive = text "POSITIVE"
severity_text warning = text "WARNING"
severity_text critical = text "CRITICAL"

abbrev pub category_text : Category → Text
category_text marketplace = text "MARKETPLACE"
category_text financial = text "FINANCIAL"
category_text inventory = text "INVENTORY"
category_text sales = text "SALES"
category_text products = text "PRODUCTS"
category_text purchasing = text "PURCHASING"
category_text global = text "GLOBAL"

abbrev pub status_eq : Status → Status → Bool
status_eq new new = true
status_eq active active = true
status_eq resolved resolved = true
status_eq archived archived = true
status_eq _ _ = false

abbrev pub is_critical : Severity → Bool
is_critical critical = true
is_critical _ = false

-- A `number | string`; numbers are printed by the platform before they get here.
pub record InsightEvidence : Type 0 where
  pub source : Text
  pub metric : Option Text
  pub value : Option Text
  pub previous_value : Option Text
  pub period : Option Text
  pub entity_id : Option Text
  pub classification : Option Text
  pub generated_at : Option Text

pub record ExecutiveInsight : Type 0 where
  pub key : Text
  pub id : Text
  pub module_name : Text
  pub category : Category
  pub severity : Severity
  pub status : Status
  pub priority : ℕ
  pub title : Text
  pub summary : Text
  pub fact : Text
  pub context : Text
  pub impact : Text
  pub recommendation : Text
  pub evidence : InsightEvidence
  pub related_insights : List Text
  pub metadata : Text
  pub version : ℕ
  pub first_detected_at : ℕ
  pub last_detected_at : ℕ
  pub occurrence_count : ℕ
  pub last_evaluation_run : Text
  pub created_at : ℕ
  pub updated_at : ℕ
  pub resolved_at : Option ℕ
  pub archived_at : Option ℕ

pub data EventType : Type 0 where
  created activated updated resolved archived reopened : EventType

abbrev pub event_type_text : EventType → Text
event_type_text created = text "CREATED"
event_type_text activated = text "ACTIVATED"
event_type_text updated = text "UPDATED"
event_type_text resolved = text "RESOLVED"
event_type_text archived = text "ARCHIVED"
event_type_text reopened = text "REOPENED"

abbrev pub event_type_eq : EventType → EventType → Bool
event_type_eq created created = true
event_type_eq activated activated = true
event_type_eq updated updated = true
event_type_eq resolved resolved = true
event_type_eq archived archived = true
event_type_eq reopened reopened = true
event_type_eq _ _ = false

pub record DomainEvent : Type 0 where
  pub id : Text
  pub insight_key : Text
  pub type : EventType
  pub timestamp : ℕ
  pub source_run_id : Text
  pub version : ℕ

pub record LifecycleContext : Type 0 where
  pub ref_date : ℕ
  pub source_run_id : Text
