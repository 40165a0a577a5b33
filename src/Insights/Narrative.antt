-- ===== src/Insights/Narrative.antt =====
-- The data of the narratives: narrative/executive-narrative-input.ts and executive-narrative-output.ts,
-- and what the platform prints: `Date.prototype.toISOString`, `String` of a date and
-- `String.prototype.toLowerCase`.
pub mod Guard
pub mod Template
pub mod Engine
use royale_ai_platform.Prelude.{ℕ, Bool, Option, List}
use royale_ai_platform.Text.{Text}
use royale_ai_platform.Insights.Domain.{Status, Severity, Category, InsightEvidence, DomainEvent}

pub record Format : Type 0 where
  pub to_iso_string : ℕ → Text
  pub date_text : ℕ → Text
  pub to_lower_case : Text → Text

pub record AlertInfo : Type 0 where
  pub type : Text
  pub severity : Text
  pub title : Text
  pub summary : Text

-- `eventCountByType` lists its entries in the order they were first written.
pub record NarrativeInput : Type 0 where
  pub insight_key : Text
  pub title : Text
  pub summary : Text
  pub fact : Text
  pub context : Text
  pub impact : Text
  pub recommendation : Text
  pub module_name : Text
  pub category : Category
  pub severity : Severity
  pub status : Status
  pub priority : ℕ
  pub evidence : InsightEvidence
  pub related_insights : List Text
  pub version : ℕ
  pub first_detected_at : Text
  pub last_detected_at : Text
  pub occurrence_count : ℕ
  pub resolved_at : Option Text
  pub archived_at : Option Text
  pub last_evaluation_run : Text
  pub timeline_events : List DomainEvent
  pub first_event : Option DomainEvent
  pub last_event : Option DomainEvent
  pub event_count_by_type : List (Text × ℕ)
  pub active_alerts : List AlertInfo
  pub source_run_id : Text

pub record EvidenceReference : Type 0 where
  pub field : Text
  pub value : Text

pub record NarrativeOutput : Type 0 where
  pub insight_key : Text
  pub summary : Text
  pub details : Text
  pub source_run_id : Text
  pub generated_at : Text
  pub referenced_evidence : List EvidenceReference
  pub warnings : List Text
  pub is_complete : Bool
