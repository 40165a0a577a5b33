-- ===== src/Insights/Tests/Narratives.antt =====
-- Tests of the alerts and the narratives over the in-memory stores.
use royale_ai_platform.Prelude.{none, true, some, [], ◌∷◌, ◌++◌, ◌≡◌, refl}
use royale_ai_platform.Text.{text, text_eq}
use royale_ai_platform.Insights.Domain.{Status, ExecutiveInsight, EventType}
use royale_ai_platform.Insights.Lifecycle.{event_of}
use royale_ai_platform.Insights.Stores.Memory.{Events, get, memory_repository, memory_timeline}
use royale_ai_platform.Insights.Queries.{count_by_type}
use royale_ai_platform.Insights.Narrative.{Format, NarrativeInput}
use royale_ai_platform.Insights.Narrative.Template.{build_warnings, generate_template}
use royale_ai_platform.Insights.Narrative.Template.Guarded.{unknown}
use royale_ai_platform.Insights.Narrative.Engine.{Answer, gave, Readings, generate}
use royale_ai_platform.Insights.Narrative.Engine.Alone.{generate_alone}
use royale_ai_platform.Insights.Narrative.Engine.Sound.{IsFaithful, generate-IsFaithful}
use royale_ai_platform.Insights.Intelligence.{
  context_of, prepare_narrative_context, generate_narrative,
}
use royale_ai_platform.Insights.Intelligence.Context.{count_of, count_of-prepare_narrative_context}
use royale_ai_platform.Insights.Tests.{insight, run_one, stored}

abbrev events : Events
events =
    event_of (text "b") EventType.created 1 run_one
    ∷ event_of (text "b") EventType.resolved 2 run_one
    ∷ event_of (text "b") EventType.archived 2 run_one
    ∷ []

abbrev plain : Format
plain = record { to_iso_string = λ n. n ∷ []; date_text = λ n. n ∷ []; to_lower_case = λ t. t }

abbrev resolved_b : ExecutiveInsight
resolved_b = record (insight (text "b") (text "2") Status.resolved) { resolved_at = some 50 }

abbrev context_b : NarrativeInput
context_b = context_of plain resolved_b events

-- A provider that speaks of another insight.
abbrev stray : NarrativeInput → Answer
stray i = gave (record {
  insight_key = text "z";
  summary = text "z";
  details = [];
  source_run_id = i.source_run_id;
  generated_at = [];
  referenced_evidence = [];
  warnings = [];
  is_complete = true;
})

abbrev readings : Readings
readings = record { first = text "1"; second = text "2"; third = text "3" }

generate-IsFaithful_example : IsFaithful context_b (generate plain (some stray) readings context_b)
generate-IsFaithful_example = generate-IsFaithful plain (some stray) readings context_b

abbrev active_b : ExecutiveInsight
active_b = insight (text "b") (text "2") Status.active

prepared_b :
    prepare_narrative_context memory_repository memory_timeline plain (text "b") stored events
    ≡ some (context_of plain active_b events)
unfolding prepare_narrative_context get text_eq
prepared_b = refl

count_of-prepare_narrative_context_example :
    count_of (text "RESOLVED") (context_of plain active_b events).event_count_by_type
    ≡ count_by_type memory_timeline (text "b") EventType.resolved events
count_of-prepare_narrative_context_example =
    count_of-prepare_narrative_context memory_repository memory_timeline plain (text "b") stored
      events (context_of plain active_b events) EventType.resolved prepared_b

narrated_b :
    generate_narrative memory_repository memory_timeline plain
      (some stray)
      readings
      (text "b")
      stored
      events
    ≡ some (generate plain (some stray) readings (context_of plain active_b events))
unfolding generate_narrative prepare_narrative_context get text_eq
narrated_b = refl

generate_alone_example :
    generate plain none readings context_b ≡ record (generate_template plain (text "1") context_b) {
      warnings =
          build_warnings context_b
          ++ (unknown (text "resolvedAt") (50 ∷ []) ++ unknown (text "archivedAt") []);
    }
generate_alone_example = generate_alone plain readings context_b
