-- ===== src/Insights/Narrative/Guard.antt =====
-- narrative/executive-narrative-factuality-guard.ts. A field that the record does not have gives
-- `undefined`, or for the names of `Object.prototype` a function, and neither is a text.
use royale_ai_platform.Prelude.{
  Bool, false, List, [], ◌∷◌, ◌++◌, ◌&&◌, not, is_empty, if◌then◌else◌,
}
use royale_ai_platform.Text.{Text, text, text_eq, show}
use royale_ai_platform.Insights.Domain.{category_text, severity_text, status_text}
use royale_ai_platform.Insights.Narrative.{NarrativeInput, EvidenceReference, NarrativeOutput}

-- `inputRecord`
abbrev pub input_record : NarrativeInput → List (Text × Text)
input_record i =
    (text "title", i.title)
    ∷ (text "summary", i.summary)
    ∷ (text "fact", i.fact)
    ∷ (text "context", i.context)
    ∷ (text "impact", i.impact)
    ∷ (text "recommendation", i.recommendation)
    ∷ (text "module", i.module_name)
    ∷ (text "category", category_text i.category)
    ∷ (text "severity", severity_text i.severity)
    ∷ (text "status", status_text i.status)
    ∷ (text "priority", show i.priority)
    ∷ (text "sourceRunId", i.source_run_id)
    ∷ (text "lastEvaluationRun", i.last_evaluation_run)
    ∷ (text "firstDetectedAt", i.first_detected_at)
    ∷ (text "lastDetectedAt", i.last_detected_at)
    ∷ (text "occurrenceCount", show i.occurrence_count)
    ∷ []

-- `inputRecord[ref.field] === ref.value`
unfoldable pub has_entry : List (Text × Text) → Text → Text → Bool
has_entry [] field value = false
has_entry ((k, v) ∷ entries) field value =
    let rest = has_entry entries field value in if text_eq k field then text_eq v value else rest

unfoldable pub evidence_exists_in_input : EvidenceReference → NarrativeInput → Bool
unfolding has_entry
evidence_exists_in_input ref i = has_entry (input_record i) ref.field ref.value

abbrev quote : Text
quote = 34 ∷ []

abbrev key_violation : Text → Text → Text
key_violation o i =
    text "insightKey mismatch: output "
    ++ quote
    ++ o
    ++ quote
    ++ text " !== input "
    ++ quote
    ++ i
    ++ quote

abbrev run_violation : Text → Text → Text
run_violation o i =
    text "sourceRunId mismatch: output "
    ++ quote
    ++ o
    ++ quote
    ++ text " !== input "
    ++ quote
    ++ i
    ++ quote

abbrev pub reference_violation : EvidenceReference → Text
reference_violation ref =
    text "referenced evidence "
    ++ quote
    ++ ref.field
    ++ text "="
    ++ ref.value
    ++ quote
    ++ text " not found in input"

-- The loop over the references.
unfoldable pub reference_violations : NarrativeInput → List EvidenceReference → List Text
reference_violations i [] = []
reference_violations i (ref ∷ refs) =
    let rest = reference_violations i refs in
    if evidence_exists_in_input ref i then rest else reference_violation ref ∷ rest

unfoldable pub validate : NarrativeInput → NarrativeOutput → List Text
validate i o =
    (if text_eq o.insight_key i.insight_key
      then []
      else key_violation o.insight_key i.insight_key ∷ [])
    ++ (if text_eq o.source_run_id i.source_run_id
        then []
        else run_violation o.source_run_id i.source_run_id ∷ [])
    ++ reference_violations i o.referenced_evidence
    ++ (if not (is_empty o.warnings) && o.is_complete
        then text "output has warnings but is marked as complete" ∷ []
        else [])
