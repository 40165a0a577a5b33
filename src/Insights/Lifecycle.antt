-- ===== src/Insights/Lifecycle.antt =====
-- The functions before the engine in lifecycle/executive-insight-lifecycle-engine.ts: what a transition
-- makes of an insight, and the event that tells of it.
pub mod EventIds
use mathlib.Core.Option
use royale_ai_platform.Prelude.{
  ℕ, ◌+◌, Bool, true, false, Option, none, some, List, [], ◌∷◌, ◌++◌, any, if◌then◌else◌,
}
use royale_ai_platform.Text.{Text, text, text_eq, show}
use royale_ai_platform.Insights.Domain.{
  Status, ExecutiveInsight, EventType, event_type_text, DomainEvent, LifecycleContext, status_eq,
}
use royale_ai_platform.Insights.Transitions.{
  LifecycleTransition, created, activated, resolved, updated, ignored, unchanged, archived,
  reopened, TransitionResult, compute_transition,
}
use royale_ai_platform.Insights.Stores.{Repository, Timeline}

-- The last part of `applyLifecycleFields`, where the status changes or the insight is new.
abbrev first_detected : Option ExecutiveInsight → LifecycleContext → ℕ
first_detected none c = c.ref_date
first_detected (some e) c = e.first_detected_at

abbrev was_detected : LifecycleTransition → Bool
was_detected resolved = false
was_detected _ = true

abbrev last_detected : LifecycleTransition → Option ExecutiveInsight → LifecycleContext → ℕ
last_detected resolved none c = c.ref_date
last_detected resolved (some e) c = e.last_detected_at
last_detected _ o c = c.ref_date

abbrev occurrences : LifecycleTransition → Option ExecutiveInsight → ℕ
occurrences t none = 1
occurrences t (some e) = if was_detected t then e.occurrence_count + 1 else e.occurrence_count

abbrev next_version : ExecutiveInsight → Option ExecutiveInsight → ℕ
next_version base none = base.version
next_version base (some e) = e.version + 1

abbrev resolved_date : LifecycleTransition → ExecutiveInsight → LifecycleContext → Option ℕ
resolved_date resolved base c = some c.ref_date
resolved_date activated base c = none
resolved_date _ base c = base.resolved_at

abbrev created_date : ExecutiveInsight → Option ExecutiveInsight → ℕ
created_date base none = base.created_at
created_date base (some e) = e.created_at

abbrev changed_fields :
    ExecutiveInsight
    → Option ExecutiveInsight
    → TransitionResult
    → LifecycleContext
    → ExecutiveInsight
changed_fields base existing t c = record base {
  status = t.new_status;
  first_detected_at = first_detected existing c;
  last_detected_at = last_detected t.transition existing c;
  occurrence_count = occurrences t.transition existing;
  last_evaluation_run = c.source_run_id;
  version = next_version base existing;
  resolved_at = resolved_date t.transition base c;
  archived_at = base.archived_at;
  created_at = created_date base existing;
  updated_at = c.ref_date;
}

-- `applyLifecycleFields`, its early returns first.
abbrev apply_fields :
    LifecycleTransition
    → ExecutiveInsight
    → Option ExecutiveInsight
    → TransitionResult
    → LifecycleContext
    → ExecutiveInsight
apply_fields ignored base (some existing) t c = existing
apply_fields unchanged base (some existing) t c = record existing {
  last_evaluation_run = c.source_run_id;
  updated_at = c.ref_date;
}
apply_fields _ base existing t c = changed_fields base existing t c

unfoldable pub apply_lifecycle_fields :
    ExecutiveInsight
    → Option ExecutiveInsight
    → TransitionResult
    → LifecycleContext
    → ExecutiveInsight
apply_lifecycle_fields base existing t c = apply_fields t.transition base existing t c

-- `none` where `transitionToEventType` throws.
unfoldable pub transition_to_event_type : LifecycleTransition → Option EventType
transition_to_event_type created = some EventType.created
transition_to_event_type activated = some EventType.activated
transition_to_event_type updated = some EventType.updated
transition_to_event_type resolved = some EventType.resolved
transition_to_event_type archived = some EventType.archived
transition_to_event_type reopened = some EventType.reopened
transition_to_event_type ignored = none
transition_to_event_type unchanged = none

abbrev pub colon : ℕ
colon = 58

-- `${insightKey}:${eventType}:${version}`
unfoldable pub build_event_id : Text → EventType → ℕ → Text
build_event_id key t version = key ++ colon ∷ (event_type_text t ++ colon ∷ show version)

abbrev pub event_of : Text → EventType → ℕ → LifecycleContext → DomainEvent
event_of key t version c = record {
  id = build_event_id key t version;
  insight_key = key;
  type = t;
  timestamp = c.ref_date;
  source_run_id = c.source_run_id;
  version = version;
}
