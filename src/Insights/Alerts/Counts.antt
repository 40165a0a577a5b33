-- ===== src/Insights/Alerts/Counts.antt =====
-- How many alerts the events of a timeline give.
use royale_ai_platform.Prelude.{
  ℕ, ◌+◌, Option, none, some, List, [], ◌∷◌, ◌≡◌, refl, arith, length, length-append,
}
use royale_ai_platform.Text.{Text}
use royale_ai_platform.Insights.Domain.{ExecutiveInsight, EventType, DomainEvent}
use royale_ai_platform.Insights.Queries.{count_type}
use royale_ai_platform.Insights.Alerts.{
  Alert, evaluate, evaluate_type, evaluate_onto, evaluate_all, push_alert,
}

-- The events of the three types that alerts tell of.
abbrev alerting : List DomainEvent → ℕ
alerting es =
    count_type es EventType.resolved
    + count_type es EventType.archived
    + count_type es EventType.reopened

abbrev one_if : Option Alert → ℕ
one_if none = 0
one_if (some a) = 1

alerting_cons :
    (type : EventType) (e : DomainEvent) (es : List DomainEvent) (o : Option ExecutiveInsight)
    → e.type ≡ type
    → alerting (e ∷ es) ≡ one_if (evaluate_type type e o) + alerting es
alerting_cons EventType.created e es o h = rw h (omega arith)
alerting_cons EventType.activated e es o h = rw h (omega arith)
alerting_cons EventType.updated e es o h = rw h (omega arith)
alerting_cons EventType.resolved e es o h = rw h (omega arith)
alerting_cons EventType.archived e es o h = rw h (omega arith)
alerting_cons EventType.reopened e es o h = rw h (omega arith)

length-push_alert :
    (acc : List Alert) (o : Option Alert) → length (push_alert acc o) ≡ length acc + one_if o
length-push_alert acc none = omega arith
length-push_alert acc (some a) = length-append acc (a ∷ [])

length-evaluate_onto :
    (acc : List Alert) (es : List DomainEvent) (get_insight : Text → Option ExecutiveInsight)
    → length (evaluate_onto acc es get_insight) ≡ length acc + alerting es
unfolding evaluate_onto evaluate
length-evaluate_onto acc [] get_insight = omega arith
length-evaluate_onto acc (e ∷ es) get_insight = omega (
  arith,
  length-evaluate_onto (push_alert acc (evaluate_type e.type e (get_insight e.insight_key))) es
      get_insight,
  length-push_alert acc (evaluate_type e.type e (get_insight e.insight_key)),
  alerting_cons e.type e es (get_insight e.insight_key) refl,
)

-- Whatever insights are found, the events of a list give as many alerts as the list has events that
-- resolve, archive or reopen.
pub length-evaluate_all :
    (es : List DomainEvent) (get_insight : Text → Option ExecutiveInsight)
    → length (evaluate_all es get_insight)
      ≡ count_type es EventType.resolved
        + count_type es EventType.archived
        + count_type es EventType.reopened
unfolding evaluate_all
length-evaluate_all es get_insight = omega (arith, length-evaluate_onto [] es get_insight)
