-- ===== src/Insights/Narrative/Engine/Sound.antt =====
-- What the engine lets through of an output, whatever provider it has.
use royale_ai_platform.Prelude.{
  Bool, true, false, Option, none, some, List, [], ◌∷◌, ◌++◌, ◌≡◌, refl, ◌⊎◌, inl, inr, is_empty,
  if◌then◌else◌, Bool-cases, All, All-append,
}
use royale_ai_platform.Text.{Text, text, text_eq, text_eq_iff}
use royale_ai_platform.Insights.Narrative.{
  Format, NarrativeInput, EvidenceReference, NarrativeOutput,
}
use royale_ai_platform.Insights.Narrative.Guard.{
  evidence_exists_in_input, reference_violations, validate,
}
use royale_ai_platform.Insights.Narrative.Template.{
  or_empty, reference, fixed_references, optional_reference, build_evidence_references,
  generate_template,
}
use royale_ai_platform.Insights.Narrative.Template.Guarded.{fixed_found, texts_found}
use royale_ai_platform.Insights.Narrative.Engine.{Answer, Readings, guarded, generate}

-- A reference to a field of the input that the guard knows, or to one of the two dates.
abbrev pub IsTraceable : NarrativeInput → EvidenceReference → Type 0
IsTraceable i ref =
    (evidence_exists_in_input ref i ≡ true)
    ⊎ (ref ≡ reference (text "resolvedAt") (or_empty i.resolved_at))
    ⊎ (ref ≡ reference (text "archivedAt") (or_empty i.archived_at))

-- An output that speaks of the insight and of the run of the input, with evidence from the input.
pub record IsFaithful (i : NarrativeInput) (o : NarrativeOutput) : Type 0 where
  pub key : o.insight_key ≡ i.insight_key
  pub run : o.source_run_id ≡ i.source_run_id
  pub traced : All (IsTraceable i) o.referenced_evidence

found-All :
    (i : NarrativeInput) (refs : List EvidenceReference)
    → reference_violations i refs ≡ []
    → All (IsTraceable i) refs
unfolding reference_violations
found-All i [] e = tt
found-All i (ref ∷ refs) e = elim (Bool-cases (evidence_exists_in_input ref i)) [
  | inl found ↦ (inl found, found-All i refs (rw found at e))
  | inr missing ↦ absurd (let e' = rw missing at e in cc)
]

add-All :
    (i : NarrativeInput) (refs : List EvidenceReference) (field t : Text)
    → All (IsTraceable i) refs
    → IsTraceable i (reference field t)
    → All (IsTraceable i) (refs ++ optional_reference field t)
add-All i refs field [] hs h = All-append (IsTraceable i) refs [] hs tt
add-All i refs field (c ∷ t) hs h =
    All-append (IsTraceable i) refs (reference field (c ∷ t) ∷ []) hs (h, tt)

references-All : (i : NarrativeInput) → All (IsTraceable i) (build_evidence_references i)
unfolding build_evidence_references
references-All i =
    let (context, impact, recommendation) = texts_found i in
    let l1 =
      fixed_references i ++ optional_reference (text "resolvedAt") (or_empty i.resolved_at) in
    let l2 = l1 ++ optional_reference (text "archivedAt") (or_empty i.archived_at) in
    let l3 = l2 ++ optional_reference (text "context") i.context in
    let l4 = l3 ++ optional_reference (text "impact") i.impact in
    let fixed = found-All i (fixed_references i) (fixed_found i) in
    let h1 = add-All i (fixed_references i) _ _ fixed (inr (inl refl)) in
    let h2 = add-All i l1 _ _ h1 (inr (inr refl)) in
    let h3 = add-All i l2 _ _ h2 (inl context) in
    let h4 = add-All i l3 _ _ h3 (inl impact) in add-All i l4 _ _ h4 (inl recommendation)

generate_template-IsFaithful :
    (f : Format) (now : Text) (i : NarrativeInput) → IsFaithful i (generate_template f now i)
unfolding generate_template
generate_template-IsFaithful f now i = record { key = refl; run = refl; traced = references-All i }

front_nil {ℓ} : {A : Type ℓ} (xs ys : List A) → xs ++ ys ≡ [] → xs ≡ []
front_nil [] ys e = refl
front_nil (x ∷ xs) ys e = absurd (cc)

validate-IsFaithful :
    (i : NarrativeInput) (o : NarrativeOutput) → validate i o ≡ [] → IsFaithful i o
unfolding validate
validate-IsFaithful i o e = elim (Bool-cases (text_eq o.insight_key i.insight_key)) [
  | inr other ↦ absurd (let e' = rw other at e in cc)
  | inl key ↦ elim (Bool-cases (text_eq o.source_run_id i.source_run_id)) [
    | inr other ↦ absurd (let e' = rw (key, other) at e in cc)
    | inl run ↦
        let e' = rw (key, run) at e in
        record {
          key = (text_eq_iff _ _).0 key;
          run = (text_eq_iff _ _).0 run;
          traced = found-All i _ (front_nil (reference_violations i o.referenced_evidence) _ e');
        }
  ]
]

nil_of_empty {ℓ} : {A : Type ℓ} (xs : List A) → is_empty xs ≡ true → xs ≡ []
nil_of_empty [] e = refl
nil_of_empty (x ∷ xs) e = absurd (cc)

warned-IsFaithful :
    (i : NarrativeInput) (o : NarrativeOutput) (ws : List Text)
    → IsFaithful i o
    → IsFaithful i (record o { warnings = ws })
warned-IsFaithful i o ws h = record { key = h.key; run = h.run; traced = h.traced }

module _ (f : Format) where
  guarded-IsFaithful :
      (provider : NarrativeInput → Answer) (now : Text) (i : NarrativeInput) (o : NarrativeOutput)
      → IsFaithful i (guarded f (some provider) now i o)
  guarded-IsFaithful provider now i o = elim (Bool-cases (is_empty (validate i o))) [
    | inl fine ↦ rw fine (warned-IsFaithful i o _ (validate-IsFaithful i o (nil_of_empty _ fine)))
    | inr bad ↦ rw bad (warned-IsFaithful i _ _ (generate_template-IsFaithful f now i))
  ]

  alone-IsFaithful :
      (now : Text) (i : NarrativeInput) (o : NarrativeOutput)
      → IsFaithful i o
      → IsFaithful i (guarded f none now i o)
  alone-IsFaithful now i o h = elim (Bool-cases (is_empty (validate i o))) [
    | inl fine ↦ rw fine (warned-IsFaithful i o _ h)
    | inr bad ↦ rw bad (warned-IsFaithful i o _ h)
  ]

  fallback-IsFaithful :
      (b : Bool) (s t : Text) (i : NarrativeInput)
      → IsFaithful i (if b then generate_template f s i else generate_template f t i)
  fallback-IsFaithful true s t i = generate_template-IsFaithful f s i
  fallback-IsFaithful false s t i = generate_template-IsFaithful f t i

  -- Whatever provider there is and whatever it answers, the narrative speaks of the insight and of
  -- the run of the input, and each piece of evidence it refers to is a field of the input with its
  -- value.
  pub generate-IsFaithful :
      (provider : Option (NarrativeInput → Answer)) (r : Readings) (i : NarrativeInput)
      → IsFaithful i (generate f provider r i)
  unfolding generate
  generate-IsFaithful none r i =
      alone-IsFaithful r.third i _
        (fallback-IsFaithful (is_empty (generate_template f r.first i).summary) r.second r.first i)
  generate-IsFaithful (some provider) r i = guarded-IsFaithful provider r.third i _
