-- ===== src/Insights/Narrative/Template.antt =====
-- narrative/executive-narrative-template-provider.ts. `new Date().toISOString()` is an argument. A
-- number in a template is printed as by `String`.
pub mod Guarded
use royale_ai_platform.Prelude.{
  ℕ, Bool, true, false, Option, none, some, List, [], ◌∷◌, ◌++◌, ltb, length, is_empty, map, filter,
  if◌then◌else◌,
}
use royale_ai_platform.Text.{Text, text, show}
use royale_ai_platform.Insights.Domain.{
  category_text, severity_text, status_text, event_type_text, DomainEvent,
}
use royale_ai_platform.Insights.Narrative.{
  Format, AlertInfo, NarrativeInput, EvidenceReference, NarrativeOutput,
}

-- `Array.prototype.join`
abbrev join : Text → List Text → Text
join separator [] = []
join separator (t ∷ []) = t
join separator (t ∷ u ∷ ts) = t ++ separator ++ join separator (u ∷ ts)

-- An entry that is written only if the text is not empty.
abbrev pub if_given {ℓ} : {A : Type ℓ} → Text → A → List A
if_given [] a = []
if_given (c ∷ t) a = a ∷ []

abbrev pub or_empty : Option Text → Text
or_empty none = []
or_empty (some t) = t

abbrev quote : Text
quote = 34 ∷ []

-- A warning that is written if the text is empty.
abbrev warning : Text → Text → List Text
warning [] w = w ∷ []
warning (c ∷ t) w = []

unfoldable pub build_warnings : NarrativeInput → List Text
build_warnings i =
    warning i.title (text "Insight sem título.")
    ++ warning i.summary (text "Insight sem sumário.")
    ++ warning i.fact (text "Insight sem fato descrito.")

abbrev pub reference : Text → Text → EvidenceReference
reference field value = record { field = field; value = value }

-- `refs` as it is declared.
abbrev pub fixed_references : NarrativeInput → List EvidenceReference
fixed_references i =
    reference (text "title") i.title
    ∷ reference (text "summary") i.summary
    ∷ reference (text "fact") i.fact
    ∷ reference (text "module") i.module_name
    ∷ reference (text "category") (category_text i.category)
    ∷ reference (text "severity") (severity_text i.severity)
    ∷ reference (text "status") (status_text i.status)
    ∷ reference (text "priority") (show i.priority)
    ∷ reference (text "sourceRunId") i.source_run_id
    ∷ reference (text "lastEvaluationRun") i.last_evaluation_run
    ∷ reference (text "firstDetectedAt") i.first_detected_at
    ∷ reference (text "lastDetectedAt") i.last_detected_at
    ∷ reference (text "occurrenceCount") (show i.occurrence_count)
    ∷ []

abbrev pub optional_reference : Text → Text → List EvidenceReference
optional_reference field t = if_given t (reference field t)

unfoldable pub build_evidence_references : NarrativeInput → List EvidenceReference
build_evidence_references i =
    fixed_references i
    ++ optional_reference (text "resolvedAt") (or_empty i.resolved_at)
    ++ optional_reference (text "archivedAt") (or_empty i.archived_at)
    ++ optional_reference (text "context") i.context
    ++ optional_reference (text "impact") i.impact
    ++ optional_reference (text "recommendation") i.recommendation

module _ (format : Format) where
  unfoldable pub build_summary : NarrativeInput → Text
  build_summary i =
      text "O insight "
      ++ quote
      ++ i.title
      ++ quote
      ++ text " (módulo "
      ++ i.module_name
      ++ text ") encontra-se com status "
      ++ format.to_lower_case (status_text i.status)
      ++ text " e severidade "
      ++ format.to_lower_case (severity_text i.severity)
      ++ text ". Foi detectado pela primeira vez em "
      ++ i.first_detected_at
      ++ text " e possui "
      ++ show i.occurrence_count
      ++ text " ocorrência(s) registrada(s). Última detecção: "
      ++ i.last_detected_at
      ++ text "."

  -- A part for the first or the last event; with an event there is one in the timeline.
  abbrev event_part : Text → List DomainEvent → Option DomainEvent → List Text
  event_part label [] o = []
  event_part label (e ∷ es) none = []
  event_part label (e ∷ es) (some f) =
      (label ++ event_type_text f.type ++ text " em " ++ format.date_text f.timestamp ++ text ".")
      ∷ []

  abbrev event_type_labels : List (Text × ℕ) → List Text
  event_type_labels counts =
      map (λ (c : Text × ℕ). c.0 ++ text ": " ++ show c.1)
        (filter (λ (c : Text × ℕ). ltb 0 c.1) counts)

  abbrev labels_part : Text → Text → List Text → List Text
  labels_part label separator [] = []
  labels_part label separator (l ∷ ls) = (label ++ join separator (l ∷ ls) ++ text ".") ∷ []

  abbrev alert_labels : List AlertInfo → List Text
  alert_labels alerts =
      map (λ (a : AlertInfo). a.title ++ text " (" ++ format.to_lower_case a.severity ++ text ")")
        alerts

  abbrev sentence : Text → Text → Text
  sentence label t = label ++ t ++ text "."

  abbrev optional_part : Text → Text → List Text
  optional_part label t = if_given t (sentence label t)

  unfoldable pub build_details : NarrativeInput → Text
  build_details i = join (text " ") (
      sentence (text "Categoria: ") (category_text i.category)
        ∷ sentence (text "Prioridade: ") (show i.priority)
        ∷ sentence (text "Versão do insight: ") (show i.version)
        ∷ optional_part (text "Fato: ") i.fact
      ++ optional_part (text "Contexto: ") i.context
      ++ optional_part (text "Impacto: ") i.impact
      ++ optional_part (text "Recomendação: ") i.recommendation
      ++ optional_part (text "Resolvido em: ") (or_empty i.resolved_at)
      ++ optional_part (text "Arquivado em: ") (or_empty i.archived_at)
      ++ sentence (text "Total de eventos na timeline: ") (show (length i.timeline_events))
        ∷ event_part (text "Primeiro evento: ") i.timeline_events i.first_event
      ++ event_part (text "Último evento: ") i.timeline_events i.last_event
      ++ labels_part (text "Contagem de eventos: ") (text " | ")
          (event_type_labels i.event_count_by_type)
      ++ labels_part (text "Alertas ativos: ") (text "; ") (alert_labels i.active_alerts)
      ++ optional_part (text "Fonte da evidência: ") i.evidence.source)

  unfoldable pub generate_template : Text → NarrativeInput → NarrativeOutput
  generate_template now i = record {
    insight_key = i.insight_key;
    summary = build_summary i;
    details = build_details i;
    source_run_id = i.source_run_id;
    generated_at = now;
    referenced_evidence = build_evidence_references i;
    warnings = build_warnings i;
    is_complete = is_empty (build_warnings i);
  }
