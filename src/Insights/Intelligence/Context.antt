-- ===== src/Insights/Intelligence/Context.antt =====
-- What the context of a narrative and the narrative itself say of the stores.
use royale_ai_platform.Prelude.{
  ℕ, ◌+◌, Option, some, List, [], ◌∷◌, ◌≡◌, refl, ◌∙◌, arith, if◌then◌else◌, Bool-cases,
  Option-cases, inl, inr, All,
}
use royale_ai_platform.Text.{Text, text_eq, text_eq_iff}
use royale_ai_platform.Insights.Domain.{
  ExecutiveInsight, EventType, event_type_text, event_type_eq, DomainEvent,
}
use royale_ai_platform.Insights.Stores.{Repository, Timeline, IsRepository}
use royale_ai_platform.Insights.Queries.{count_type, count_by_type}
use royale_ai_platform.Insights.Narrative.{Format, NarrativeInput, NarrativeOutput}
use royale_ai_platform.Insights.Narrative.Engine.{Answer, Readings, generate}
use royale_ai_platform.Insights.Narrative.Engine.Sound.{IsTraceable, generate-IsFaithful}
use royale_ai_platform.Insights.Intelligence.{
  add_count, count_events, context_of, prepare_narrative_context, generate_narrative,
}

-- What `eventCountByType[type] ?? 0` reads.
abbrev pub count_of : Text → List (Text × ℕ) → ℕ
count_of key [] = 0
count_of key ((k, n) ∷ counts) = let rest = count_of key counts in if text_eq k key then n else rest

event_type_text-eq :
    (t u : EventType) → text_eq (event_type_text t) (event_type_text u) ≡ event_type_eq t u
unfolding text_eq
event_type_text-eq EventType.created EventType.created = refl
event_type_text-eq EventType.activated EventType.activated = refl
event_type_text-eq EventType.updated EventType.updated = refl
event_type_text-eq EventType.resolved EventType.resolved = refl
event_type_text-eq EventType.archived EventType.archived = refl
event_type_text-eq EventType.reopened EventType.reopened = refl
event_type_text-eq _ _ = refl

count_of-add_count :
    (k j : Text) (counts : List (Text × ℕ))
    → count_of j (add_count k counts)
      ≡ (if text_eq k j then count_of j counts + 1 else count_of j counts)
unfolding add_count
count_of-add_count k j [] = ground arith
count_of-add_count k j ((i, n) ∷ counts) =
    ground (arith, text_eq_iff i k, text_eq_iff i j, text_eq_iff k j, count_of-add_count k j counts)

count_of-count_events :
    (es : List DomainEvent) (type : EventType) (counts : List (Text × ℕ))
    → count_of (event_type_text type) (count_events es counts)
      ≡ count_of (event_type_text type) counts + count_type es type
unfolding count_events
count_of-count_events [] type counts = omega arith
count_of-count_events (e ∷ es) type counts =
    let ih = count_of-count_events es type (add_count (event_type_text e.type) counts) in
    let one = count_of-add_count (event_type_text e.type) (event_type_text type) counts in
    let same = event_type_text-eq e.type type in
    elim (Bool-cases (event_type_eq e.type type)) [
      | inl equal ↦ let one' = rw (same, equal) at one in rw equal (omega arith)
      | inr other ↦ let one' = rw (same, other) at one in rw other (omega arith)
    ]

module _ {S T : Type 0} (repo : Repository S) (timeline : Timeline T) where
  -- The count of each type of event in the context of a narrative is the number that counting the
  -- events of that type in the timeline gives.
  pub count_of-prepare_narrative_context :
      (f : Format) (key : Text) (s : S) (t : T) (n : NarrativeInput) (type : EventType)
      → prepare_narrative_context repo timeline f key s t ≡ some n
      → count_of (event_type_text type) n.event_count_by_type ≡ count_by_type timeline key type t
  unfolding prepare_narrative_context
  count_of-prepare_narrative_context f key s t n type e =
      elim (Option-cases (repo.find_by_key key s)) [
        | inl missing ↦ absurd (let e' = rw missing at e in cc)
        | inr (i, found) ↦
            let e' = rw found at e in
            let same : context_of f i (timeline.find_by_key key t) ≡ n = cc in
            rw (← same) (omega (arith, count_of-count_events (timeline.find_by_key key t) type []))
      ]

  -- If the repository keeps its laws, then a narrative for a key, whatever provider wrote it, is
  -- about the stored insight of that key and about its last run, and each piece of evidence it
  -- refers to is a field of the context of that insight with its value.
  pub generate_narrative-IsFaithful :
      {IsValid : S → Type 0} (laws : IsRepository IsValid repo) (f : Format)
      (provider : Option (NarrativeInput → Answer)) (r : Readings) (key : Text) (s : S) (t : T)
      (o : NarrativeOutput)
      → generate_narrative repo timeline f provider r key s t ≡ some o
      → (i : ExecutiveInsight) × (repo.find_by_key key s ≡ some i)
        × (o.insight_key ≡ key)
        × (o.source_run_id ≡ i.last_evaluation_run)
        × All (IsTraceable (context_of f i (timeline.find_by_key key t))) o.referenced_evidence
  unfolding generate_narrative prepare_narrative_context
  generate_narrative-IsFaithful laws f provider r key s t o e =
      elim (Option-cases (repo.find_by_key key s)) [
        | inl missing ↦ absurd (let e' = rw missing at e in cc)
        | inr (i, found) ↦
            let e' = rw found at e in
            let n = context_of f i (timeline.find_by_key key t) in
            let same : generate f provider r n ≡ o = cc in
            let h = rw same at (generate-IsFaithful f provider r n) in
            (i, found, h.key ∙ laws.find_by_key-key key s i found, h.run, h.traced)
      ]
