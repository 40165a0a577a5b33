-- ===== src/Insights/Spec.antt =====
-- What a reconciliation makes of the entry of one key, told without the loops, the stores and the
-- transitions.
use royale_ai_platform.Prelude.{ℕ, ◌+◌, Option, none, some, List, [], ◌∷◌, if◌then◌else◌}
use royale_ai_platform.Text.{Text, text_eq}
use royale_ai_platform.Insights.Domain.{Status, ExecutiveInsight, LifecycleContext}
use royale_ai_platform.Insights.Stores.{has_key}

-- A key detected for the first time.
abbrev pub first_entry : LifecycleContext → ExecutiveInsight → ExecutiveInsight
first_entry c i = record i {
  status = Status.new;
  first_detected_at = c.ref_date;
  last_detected_at = c.ref_date;
  occurrence_count = 1;
  last_evaluation_run = c.source_run_id;
  updated_at = c.ref_date;
}

-- A key detected again: the new text with the history of the old entry.
abbrev pub seen_again :
    LifecycleContext → ExecutiveInsight → ExecutiveInsight → Option ℕ → ExecutiveInsight
seen_again c i e resolved_at = record i {
  status = Status.active;
  first_detected_at = e.first_detected_at;
  last_detected_at = c.ref_date;
  occurrence_count = e.occurrence_count + 1;
  last_evaluation_run = c.source_run_id;
  version = e.version + 1;
  resolved_at = resolved_at;
  created_at = e.created_at;
  updated_at = c.ref_date;
}

abbrev pub redetect :
    Status → LifecycleContext → ExecutiveInsight → ExecutiveInsight → ExecutiveInsight
redetect Status.archived c i e = e
redetect Status.active c i e = seen_again c i e i.resolved_at
redetect Status.new c i e = seen_again c i e none
redetect Status.resolved c i e = seen_again c i e none

abbrev pub detect_entry :
    LifecycleContext → ExecutiveInsight → Option ExecutiveInsight → ExecutiveInsight
detect_entry c i none = first_entry c i
detect_entry c i (some e) = redetect e.status c i e

-- An active key that was not detected.
abbrev pub resolve_entry : LifecycleContext → ExecutiveInsight → ExecutiveInsight
resolve_entry c e = record e {
  status = Status.resolved;
  last_evaluation_run = c.source_run_id;
  version = e.version + 1;
  resolved_at = some c.ref_date;
  updated_at = c.ref_date;
}

abbrev pub undetected : Status → LifecycleContext → ExecutiveInsight → ExecutiveInsight
undetected Status.active c e = resolve_entry c e
undetected _ c e = e

-- The detections of one key, in turn.
unfoldable pub detections :
    LifecycleContext
    → List ExecutiveInsight
    → Text
    → Option ExecutiveInsight
    → Option ExecutiveInsight
detections c [] k o = o
detections c (i ∷ is) k o =
    detections c is k (if text_eq i.key k then some (detect_entry c i o) else o)

abbrev pub settle : LifecycleContext → Option ExecutiveInsight → Option ExecutiveInsight
settle c none = none
settle c (some e) = some (undetected e.status c e)

unfoldable pub reconciled :
    LifecycleContext
    → List ExecutiveInsight
    → Text
    → Option ExecutiveInsight
    → Option ExecutiveInsight
reconciled c is k o = if has_key k is then detections c is k o else settle c (detections c is k o)
