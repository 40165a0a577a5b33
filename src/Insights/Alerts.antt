-- ===== src/Insights/Alerts.antt =====
-- The alerts: intelligence/executive-insight-alert.ts and executive-insight-alert-engine.ts. What
-- `getInsight` resolves to is a function of the key.
pub mod Counts
use royale_ai_platform.Prelude.{ℕ, Option, none, some, List, [], ◌∷◌, ◌++◌}
use royale_ai_platform.Text.{Text, text}
use royale_ai_platform.Insights.Domain.{Severity, info, ExecutiveInsight, EventType, DomainEvent}

pub data AlertType : Type 0 where
  reopened resolved archived : AlertType

abbrev pub alert_type_text : AlertType → Text
alert_type_text reopened = text "REOPENED"
alert_type_text resolved = text "RESOLVED"
alert_type_text archived = text "ARCHIVED"

pub record Alert : Type 0 where
  pub id : Text
  pub insight_key : Text
  pub type : AlertType
  pub severity : Severity
  pub title : Text
  pub summary : Text
  pub timestamp : ℕ
  pub source_run_id : Text

abbrev pub resolve_title : AlertType → Text
resolve_title reopened = text "Insight reaberto"
resolve_title resolved = text "Insight resolvido"
resolve_title archived = text "Insight arquivado"

abbrev pub resolve_summary : AlertType → Text → Text
resolve_summary reopened key = text "O insight " ++ key ++ text " foi reaberto"
resolve_summary resolved key = text "O insight " ++ key ++ text " foi resolvido"
resolve_summary archived key = text "O insight " ++ key ++ text " foi arquivado"

-- `insight?.severity ?? "INFO"`
abbrev severity_of : Option ExecutiveInsight → Severity
severity_of none = info
severity_of (some i) = i.severity

abbrev pub build_alert : DomainEvent → Option ExecutiveInsight → AlertType → Alert
build_alert e insight type = record {
  id = text "alert:" ++ e.id;
  insight_key = e.insight_key;
  type = type;
  severity = severity_of insight;
  title = resolve_title type;
  summary = resolve_summary type e.insight_key;
  timestamp = e.timestamp;
  source_run_id = e.source_run_id;
}

-- The tests of `evaluate` on the type of the event.
abbrev pub evaluate_type : EventType → DomainEvent → Option ExecutiveInsight → Option Alert
evaluate_type EventType.reopened e insight = some (build_alert e insight reopened)
evaluate_type EventType.resolved e insight = some (build_alert e insight resolved)
evaluate_type EventType.archived e insight = some (build_alert e insight archived)
evaluate_type _ e insight = none

unfoldable pub evaluate : DomainEvent → Option ExecutiveInsight → Option Alert
evaluate e insight = evaluate_type e.type e insight

-- `if (alert) acc.push(alert)`
abbrev push_alert : List Alert → Option Alert → List Alert
push_alert acc none = acc
push_alert acc (some a) = acc ++ a ∷ []

-- The `reduce` of `evaluateAll`.
unfoldable pub evaluate_onto :
    List Alert → List DomainEvent → (Text → Option ExecutiveInsight) → List Alert
evaluate_onto acc [] get_insight = acc
evaluate_onto acc (e ∷ es) get_insight =
    evaluate_onto (push_alert acc (evaluate e (get_insight e.insight_key))) es get_insight

unfoldable pub evaluate_all : List DomainEvent → (Text → Option ExecutiveInsight) → List Alert
evaluate_all es get_insight = evaluate_onto [] es get_insight
