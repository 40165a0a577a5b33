-- ===== src/Insights/Narrative/Template/Guarded.antt =====
-- What the guard says of the output of the template provider.
use royale_ai_platform.Prelude.{
  true, false, List, [], ◌∷◌, ◌++◌, ◌≡◌, refl, ap, ◌∙◌, append-nil, ◌&&◌, not, is_empty, map,
  Bool-cases, inl, inr,
}
use royale_ai_platform.Text.{Text, text, text_eq, text_eq_refl, show}
use royale_ai_platform.Insights.Domain.{category_text, severity_text, status_text}
use royale_ai_platform.Insights.Narrative.{Format, NarrativeInput, EvidenceReference}
use royale_ai_platform.Insights.Narrative.Guard.{
  has_entry, evidence_exists_in_input, reference_violation, reference_violations, validate,
}
use royale_ai_platform.Insights.Narrative.Template.{
  or_empty, reference, fixed_references, optional_reference, build_evidence_references,
  build_warnings, generate_template,
}

pub reference_violations-append :
    (i : NarrativeInput) (xs ys : List EvidenceReference)
    → reference_violations i (xs ++ ys) ≡ reference_violations i xs ++ reference_violations i ys
unfolding reference_violations
reference_violations-append i [] ys = refl
reference_violations-append i (x ∷ xs) ys = elim (Bool-cases (evidence_exists_in_input x i)) [
  | inl found ↦ rw found (reference_violations-append i xs ys)
  | inr missing ↦
      rw missing (ap (λ r. reference_violation x ∷ r) (reference_violations-append i xs ys))
]

joined :
    (i : NarrativeInput) (xs ys : List EvidenceReference) (us ws : List Text)
    → reference_violations i xs ≡ us
    → reference_violations i ys ≡ ws
    → reference_violations i (xs ++ ys) ≡ us ++ ws
joined i xs ys us ws e f = reference_violations-append i xs ys ∙ rw (e, f)

pub fixed_found : (i : NarrativeInput) → reference_violations i (fixed_references i) ≡ []
unfolding reference_violations evidence_exists_in_input has_entry text_eq
fixed_found i = rw (
  text_eq_refl i.title,
  text_eq_refl i.summary,
  text_eq_refl i.fact,
  text_eq_refl i.module_name,
  text_eq_refl (category_text i.category),
  text_eq_refl (severity_text i.severity),
  text_eq_refl (status_text i.status),
  text_eq_refl (show i.priority),
  text_eq_refl i.source_run_id,
  text_eq_refl i.last_evaluation_run,
  text_eq_refl i.first_detected_at,
  text_eq_refl i.last_detected_at,
  text_eq_refl (show i.occurrence_count),
)

optional_found :
    (i : NarrativeInput) (field t : Text)
    → evidence_exists_in_input (reference field t) i ≡ true
    → reference_violations i (optional_reference field t) ≡ []
unfolding reference_violations
optional_found i field [] found = refl
optional_found i field (c ∷ t) found = rw found

-- The message for a reference that the guard does not know, where one is written.
abbrev pub unknown : Text → Text → List Text
unknown field t = map reference_violation (optional_reference field t)

optional_unknown :
    (i : NarrativeInput) (field t : Text)
    → evidence_exists_in_input (reference field t) i ≡ false
    → reference_violations i (optional_reference field t) ≡ unknown field t
unfolding reference_violations
optional_unknown i field [] missing = refl
optional_unknown i field (c ∷ t) missing = rw missing

dates_unknown :
    (i : NarrativeInput) (t : Text)
    → (evidence_exists_in_input (reference (text "resolvedAt") t) i ≡ false)
      × (evidence_exists_in_input (reference (text "archivedAt") t) i ≡ false)
unfolding evidence_exists_in_input has_entry text_eq
dates_unknown i t = (refl, refl)

pub texts_found :
    (i : NarrativeInput)
    → (evidence_exists_in_input (reference (text "context") i.context) i ≡ true)
      × (evidence_exists_in_input (reference (text "impact") i.impact) i ≡ true)
      × (evidence_exists_in_input (reference (text "recommendation") i.recommendation) i ≡ true)
unfolding evidence_exists_in_input has_entry text_eq
texts_found i = (text_eq_refl i.context, text_eq_refl i.impact, text_eq_refl i.recommendation)

references_guarded :
    (i : NarrativeInput)
    → reference_violations i (build_evidence_references i)
      ≡ unknown (text "resolvedAt") (or_empty i.resolved_at)
        ++ unknown (text "archivedAt") (or_empty i.archived_at)
unfolding build_evidence_references
references_guarded i =
    let resolved = (dates_unknown i (or_empty i.resolved_at)).0 in
    let archived = (dates_unknown i (or_empty i.archived_at)).1 in
    let (context, impact, recommendation) = texts_found i in
    let fixed =
      joined i (fixed_references i) _ _ _ (fixed_found i) (optional_unknown i _ _ resolved) in
    let dated = joined i _ _ _ _ fixed (optional_unknown i _ _ archived) in
    let told = joined i _ _ _ _ dated (optional_found i _ _ context) in
    let judged = joined i _ _ _ _ told (optional_found i _ _ impact) in
    joined i _ _ _ _ judged (optional_found i _ _ recommendation)
    ∙ append-nil _
    ∙ append-nil _
    ∙ append-nil _

complete_or_warned : (ws : List Text) → (not (is_empty ws) && is_empty ws) ≡ false
complete_or_warned [] = refl
complete_or_warned (w ∷ ws) = refl

-- Of the output of the template provider the guard complains exactly about the references to the
-- dates of the resolving and of the archiving, where the input has them.
pub validate-generate_template :
    (f : Format) (now : Text) (i : NarrativeInput)
    → validate i (generate_template f now i)
      ≡ unknown (text "resolvedAt") (or_empty i.resolved_at)
        ++ unknown (text "archivedAt") (or_empty i.archived_at)
unfolding validate generate_template
validate-generate_template f now i =
    rw
      (
        text_eq_refl i.insight_key,
        text_eq_refl i.source_run_id,
        complete_or_warned (build_warnings i),
        references_guarded i,
      )
      (append-nil _)
