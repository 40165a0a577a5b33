-- ===== src/Insights/Intelligence.antt =====
-- intelligence/executive-insight-intelligence-engine.ts and copilot/copilot-executive-facade.ts, which
-- read the repository and the timeline and write neither: their states are arguments.
pub mod Context
use royale_ai_platform.Prelude.{
  ℕ, ◌+◌, Bool, Option, none, some, List, [], ◌∷◌, ◌++◌, filter, head_or_none, last_or_none, map,
  if◌then◌else◌,
}
use royale_ai_platform.Text.{Text, text_eq}
use royale_ai_platform.Insights.Domain.{
  Status, new, resolved, archived, severity_text, is_critical, ExecutiveInsight, EventType,
  event_type_text, DomainEvent,
}
use royale_ai_platform.Insights.Stores.{Repository, Timeline}
use royale_ai_platform.Insights.Alerts.{Alert, alert_type_text, evaluate}
use royale_ai_platform.Insights.Queries.{
  get_full_history, find_first_event, find_last_event, count_by_type,
}
use royale_ai_platform.Insights.Narrative.{Format, AlertInfo, NarrativeInput, NarrativeOutput}
use royale_ai_platform.Insights.Narrative.Engine.{Answer, Readings, generate}

-- `eventCountByType[event.type] = (eventCountByType[event.type] ?? 0) + 1`
unfoldable pub add_count : Text → List (Text × ℕ) → List (Text × ℕ)
add_count key [] = (key, 1) ∷ []
add_count key ((k, n) ∷ counts) =
    let rest = (k, n) ∷ add_count key counts in if text_eq k key then (k, n + 1) ∷ counts else rest

unfoldable pub count_events : List DomainEvent → List (Text × ℕ) → List (Text × ℕ)
count_events [] counts = counts
count_events (e ∷ es) counts = count_events es (add_count (event_type_text e.type) counts)

abbrev alert_info : Alert → AlertInfo
alert_info a = record {
  type = alert_type_text a.type;
  severity = severity_text a.severity;
  title = a.title;
  summary = a.summary;
}

abbrev pub push_info : Option Alert → List AlertInfo → List AlertInfo
push_info none alerts = alerts
push_info (some a) alerts = alert_info a ∷ alerts

-- The loop over the events that pushes alerts, from the front.
unfoldable pub alert_infos : ExecutiveInsight → List DomainEvent → List AlertInfo
alert_infos i [] = []
alert_infos i (e ∷ es) = push_info (evaluate e (some i)) (alert_infos i es)

-- `date?.toISOString() ?? null`
abbrev iso_date : Format → Option ℕ → Option Text
iso_date f none = none
iso_date f (some date) = some (f.to_iso_string date)

-- What `prepareNarrativeContext` returns for an insight and its events.
abbrev pub context_of : Format → ExecutiveInsight → List DomainEvent → NarrativeInput
context_of f i es = record {
  insight_key = i.key;
  title = i.title;
  summary = i.summary;
  fact = i.fact;
  context = i.context;
  impact = i.impact;
  recommendation = i.recommendation;
  module_name = i.module_name;
  category = i.category;
  severity = i.severity;
  status = i.status;
  priority = i.priority;
  evidence = i.evidence;
  related_insights = i.related_insights;
  version = i.version;
  first_detected_at = f.to_iso_string i.first_detected_at;
  last_detected_at = f.to_iso_string i.last_detected_at;
  occurrence_count = i.occurrence_count;
  resolved_at = iso_date f i.resolved_at;
  archived_at = iso_date f i.archived_at;
  last_evaluation_run = i.last_evaluation_run;
  timeline_events = es;
  first_event = head_or_none es;
  last_event = last_or_none es;
  event_count_by_type = count_events es [];
  active_alerts = alert_infos i es;
  source_run_id = i.last_evaluation_run;
}

module _ {S T : Type 0} (repo : Repository S) (timeline : Timeline T) where
  abbrev pub find_active : S → List ExecutiveInsight
  find_active s = repo.find_active s

  abbrev pub find_new : S → List ExecutiveInsight
  find_new s = repo.find_by_status new s

  abbrev pub find_resolved : S → List ExecutiveInsight
  find_resolved s = repo.find_by_status resolved s

  abbrev pub find_archived : S → List ExecutiveInsight
  find_archived s = repo.find_by_status archived s

  abbrev pub find_critical : S → List ExecutiveInsight
  find_critical s = filter (λ (i : ExecutiveInsight). is_critical i.severity) (repo.find_all s)

  -- `getTimeline`, `getFullHistory`, `getFirstEvent`, `getLastEvent` and `countEventsByType`
  abbrev pub get_timeline : Text → T → List DomainEvent
  get_timeline key t = timeline.find_by_key key t

  abbrev pub get_history : Text → T → List DomainEvent
  get_history key t = get_full_history timeline key t

  abbrev pub get_first_event : Text → T → Option DomainEvent
  get_first_event key t = find_first_event timeline key t

  abbrev pub get_last_event : Text → T → Option DomainEvent
  get_last_event key t = find_last_event timeline key t

  abbrev pub count_events_by_type : Text → EventType → T → ℕ
  count_events_by_type key type t = count_by_type timeline key type t

  abbrev pub evaluate_alerts_for_event : DomainEvent → S → Option Alert
  evaluate_alerts_for_event e s = evaluate e (repo.find_by_key e.insight_key s)

  abbrev prepared : Format → Option ExecutiveInsight → List DomainEvent → Option NarrativeInput
  prepared f none es = none
  prepared f (some i) es = some (context_of f i es)

  unfoldable pub prepare_narrative_context : Format → Text → S → T → Option NarrativeInput
  prepare_narrative_context f key s t =
      prepared f (repo.find_by_key key s) (timeline.find_by_key key t)

  abbrev narrated :
      Format
      → Option (NarrativeInput → Answer)
      → Readings
      → Option NarrativeInput
      → Option NarrativeOutput
  narrated f provider r none = none
  narrated f provider r (some i) = some (generate f provider r i)

  -- `generateNarrative` of the facade.
  unfoldable pub generate_narrative :
      Format → Option (NarrativeInput → Answer) → Readings → Text → S → T → Option NarrativeOutput
  unfolding prepare_narrative_context
  generate_narrative f provider r key s t =
      narrated f provider r (prepare_narrative_context f key s t)
