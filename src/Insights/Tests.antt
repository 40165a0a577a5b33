-- ===== src/Insights/Tests.antt =====
-- Tests of the lifecycle of the insights: the theorems over the in-memory stores.
pub mod Archiving
pub mod Narratives
pub mod Building
use royale_ai_platform.Prelude.{ℕ, true, false, none, some, List, [], ◌∷◌, ◌≡◌, refl, sym, ◌∙◌, ◌≢◌}
use royale_ai_platform.Text.{Text, text, text_eq, text_eq_iff}
use royale_ai_platform.Insights.Domain.{
  Status, Severity, Category, ExecutiveInsight, EventType, DomainEvent, LifecycleContext,
}
use royale_ai_platform.Insights.Transitions.{compute_transition}
use royale_ai_platform.Insights.Lifecycle.{
  apply_lifecycle_fields, transition_to_event_type, event_of,
}
use royale_ai_platform.Insights.Lifecycle.EventIds.{build_event_id-injective}
use royale_ai_platform.Insights.Stores.{has_key}
use royale_ai_platform.Insights.Stores.Memory.{
  Insights, Events, put, get, change, memory_repository, memory_timeline,
}
use royale_ai_platform.Insights.Stores.Memory.Laws.{
  IsDistinct, memory_repository-IsRepository, memory_timeline-IsTimeline,
}
use royale_ai_platform.Insights.Engine.{
  Outcome, ok, thrown, insight_not_found, Progress, detect_one, detect_all, resolve_one,
  resolve_all, reconcile, archive, reopen,
}
use royale_ai_platform.Insights.Engine.Refinement.{Reconciles, reconcile_refines}
use royale_ai_platform.Insights.Engine.History.{
  Succeeds, reconcile-Succeeds, reconcile_active, reconcile_detected,
}
use royale_ai_platform.Insights.Engine.Archive.{
  IsRefused, archive_thrown, archive_again, archive_shared_id,
}

abbrev pub insight : Text → Text → Status → ExecutiveInsight
insight key id status = record {
  key = key;
  id = id;
  module_name = text "sales";
  category = Category.sales;
  severity = Severity.warning;
  status = status;
  priority = 2;
  title = text "Queda";
  summary = text "Queda de vendas";
  fact = [];
  context = [];
  impact = [];
  recommendation = [];
  evidence = record {
    source = text "sales";
    metric = none;
    value = none;
    previous_value = none;
    period = none;
    entity_id = none;
    classification = none;
    generated_at = none;
  };
  related_insights = [];
  metadata = [];
  version = 1;
  first_detected_at = 10;
  last_detected_at = 10;
  occurrence_count = 1;
  last_evaluation_run = text "r0";
  created_at = 10;
  updated_at = 10;
  resolved_at = none;
  archived_at = none;
}

abbrev pub run_one : LifecycleContext
run_one = record { ref_date = 50; source_run_id = text "r1" }

abbrev pub stored : Insights
stored = insight (text "a") (text "1") Status.new ∷ insight (text "b") (text "2") Status.active ∷ []

abbrev detected : List ExecutiveInsight
detected = insight (text "a") (text "3") Status.new ∷ insight (text "c") (text "4") Status.new ∷ []

stored-IsDistinct : IsDistinct stored
unfolding text_eq
stored-IsDistinct = (refl, (refl, tt))

reconcile_refines_example :
    (q : Progress Insights Events) × (reconcile memory_repository memory_timeline detected run_one
        stored []
      ≡ ok q)
    × Reconciles memory_repository-IsRepository memory_timeline-IsTimeline run_one detected stored
        [] q
reconcile_refines_example =
    reconcile_refines memory_repository-IsRepository memory_timeline-IsTimeline run_one detected
      stored [] stored-IsDistinct

abbrev progress_of :
    Outcome (Progress Insights Events) (Progress Insights Events) → Progress Insights Events
progress_of (ok q) = q
progress_of (thrown reason q) = q

abbrev reached : Progress Insights Events
reached = progress_of (reconcile memory_repository memory_timeline detected run_one stored [])

reached_lem : reconcile memory_repository memory_timeline detected run_one stored [] ≡ ok reached
unfolding reconcile detect_all detect_one resolve_all resolve_one compute_transition
    apply_lifecycle_fields transition_to_event_type put get text_eq
reached_lem = refl

-- The entry of b is resolved at version two, and the timeline has three events.
reached_b :
    (get (text "b") reached.repo
      ≡ some (record (insight (text "b") (text "2") Status.resolved) {
        last_evaluation_run = text "r1";
        version = 2;
        resolved_at = some 50;
        updated_at = 50;
      }))
unfolding reconcile detect_all detect_one resolve_all resolve_one compute_transition
    apply_lifecycle_fields transition_to_event_type put get text_eq
reached_b = refl

abbrev a_again : ExecutiveInsight
a_again = record (insight (text "a") (text "3") Status.active) {
  last_detected_at = 50;
  occurrence_count = 2;
  last_evaluation_run = text "r1";
  version = 2;
  updated_at = 50;
}

reached_a : get (text "a") reached.repo ≡ some a_again
unfolding reconcile detect_all detect_one resolve_all resolve_one compute_transition
    apply_lifecycle_fields transition_to_event_type put get text_eq
reached_a = refl

found_b : get (text "b") stored ≡ some (insight (text "b") (text "2") Status.active)
unfolding get text_eq
found_b = refl

has_a : has_key (text "a") detected ≡ true
unfolding text_eq
has_a = refl

reconcile-Succeeds_example :
    (e' : ExecutiveInsight) × (get (text "b") reached.repo ≡ some e')
    × Succeeds run_one (insight (text "b") (text "2") Status.active) e'
reconcile-Succeeds_example =
    reconcile-Succeeds run_one memory_repository-IsRepository memory_timeline-IsTimeline detected
      stored [] reached (text "b") (insight (text "b") (text "2") Status.active) stored-IsDistinct
      reached_lem found_b

reconcile_active_example : has_key (text "a") detected ≡ true
reconcile_active_example =
    reconcile_active run_one memory_repository-IsRepository memory_timeline-IsTimeline detected
      stored [] reached (text "a") a_again stored-IsDistinct reached_lem reached_a refl

abbrev third : ℕ
third = 3

build_event_id-injective_example :
    (text "a" ≡ text "a") × (EventType.created ≡ EventType.created) × (third ≡ third)
build_event_id-injective_example =
    build_event_id-injective (text "a") (text "a") EventType.created EventType.created third third
      refl
