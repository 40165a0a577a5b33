-- ===== src/Insights/Engine/History.antt =====
-- What every reconciliation keeps of a stored insight, and what it guarantees of the detected ones.
use royale_ai_platform.Prelude.{
  ◌≤◌, true, Option, none, some, List, [], ◌∷◌, ◌≡◌, refl, sym, ap, ◌∙◌, arith, ◌≢◌, Bool-cases,
  inl, inr,
}
use royale_ai_platform.Text.{Text, text_eq}
use royale_ai_platform.Insights.Domain.{Status, ExecutiveInsight, LifecycleContext}
use royale_ai_platform.Insights.Stores.{Repository, Timeline, IsRepository, IsTimeline, has_key}
use royale_ai_platform.Insights.Spec.{
  detect_entry, redetect, detections, settle, undetected, reconciled,
}
use royale_ai_platform.Insights.Engine.{Progress, ok, reconcile}
use royale_ai_platform.Insights.Engine.Refinement.{reconcile_refines}

module _ (c : LifecycleContext) where
  -- What later entries of a key keep of an earlier one.
  pub record Succeeds (e e' : ExecutiveInsight) : Type 0 where
    pub first : e'.first_detected_at ≡ e.first_detected_at
    pub made : e'.created_at ≡ e.created_at
    pub version_grows : e.version ≤ e'.version
    pub count_grows : e.occurrence_count ≤ e'.occurrence_count
    pub archived_kept : e.status ≡ Status.archived → e' ≡ e

  redetect-Succeeds :
      (i e : ExecutiveInsight) (st : Status) → e.status ≡ st → Succeeds e (redetect st c i e)
  redetect-Succeeds i e Status.archived h = ground arith
  redetect-Succeeds i e Status.active h = ground arith
  redetect-Succeeds i e Status.new h = ground arith
  redetect-Succeeds i e Status.resolved h = ground arith

  undetected-Succeeds :
      (e : ExecutiveInsight) (st : Status) → e.status ≡ st → Succeeds e (undetected st c e)
  undetected-Succeeds e Status.archived h = ground arith
  undetected-Succeeds e Status.active h = ground arith
  undetected-Succeeds e Status.new h = ground arith
  undetected-Succeeds e Status.resolved h = ground arith

  Succeeds-refl : (e : ExecutiveInsight) → Succeeds e e
  Succeeds-refl e = ground arith

  Succeeds-trans : (e f g : ExecutiveInsight) → Succeeds e f → Succeeds f g → Succeeds e g
  Succeeds-trans e f g p q = record {
    first = q.first ∙ p.first;
    made = q.made ∙ p.made;
    version_grows = omega (arith, p.version_grows, q.version_grows);
    count_grows = omega (arith, p.count_grows, q.count_grows);
    archived_kept = λ h.
        let same = p.archived_kept h in
        q.archived_kept (ap (λ (x : ExecutiveInsight). x.status) same ∙ h) ∙ same;
  }

  detections-Succeeds :
      (is : List ExecutiveInsight) (k : Text) (e : ExecutiveInsight)
      → (e' : ExecutiveInsight) × (detections c is k (some e) ≡ some e') × Succeeds e e'
  unfolding detections
  detections-Succeeds [] k e = (e, refl, Succeeds-refl e)
  detections-Succeeds (i ∷ is) k e = elim (Bool-cases (text_eq i.key k)) [
    | inr other ↦ rw other (detections-Succeeds is k e)
    | inl same ↦
        let (e', h, s) = detections-Succeeds is k (redetect e.status c i e) in
        rw same (e', h, Succeeds-trans e _ e' (redetect-Succeeds i e e.status refl) s)
  ]

  reconciled-Succeeds :
      (is : List ExecutiveInsight) (k : Text) (e : ExecutiveInsight)
      → (e' : ExecutiveInsight) × (reconciled c is k (some e) ≡ some e') × Succeeds e e'
  unfolding reconciled
  reconciled-Succeeds is k e =
      let (f, h, s) = detections-Succeeds is k e in
      elim (Bool-cases (has_key k is)) [
        | inl there ↦ rw there (f, h, s)
        | inr away ↦
            rw (away, h)
              (
                undetected f.status c f,
                refl,
                Succeeds-trans e f _ s (undetected-Succeeds f f.status refl),
              )
      ]

  -- A status that a detection gives or leaves.
  abbrev IsOpen : Option ExecutiveInsight → Type 0
  IsOpen o = (e : ExecutiveInsight) × (o ≡ some e) × (e.status ≢ Status.resolved)

  redetect-open :
      (i e : ExecutiveInsight) (st : Status)
      → e.status ≡ st
      → (redetect st c i e).status ≢ Status.resolved
  redetect-open i e Status.archived h = λ r. cc
  redetect-open i e Status.active h = λ r. cc
  redetect-open i e Status.new h = λ r. cc
  redetect-open i e Status.resolved h = λ r. cc

  detect_entry-open :
      (i : ExecutiveInsight) (o : Option ExecutiveInsight)
      → (detect_entry c i o).status ≢ Status.resolved
  detect_entry-open i none = λ r. cc
  detect_entry-open i (some e) = redetect-open i e e.status refl

  detections-stay :
      (is : List ExecutiveInsight) (k : Text) (o : Option ExecutiveInsight)
      → IsOpen o
      → IsOpen (detections c is k o)
  unfolding detections
  detections-stay [] k o h = h
  detections-stay (i ∷ is) k o h = elim (Bool-cases (text_eq i.key k)) [
    | inr other ↦ rw other (detections-stay is k o h)
    | inl same ↦ rw same (detections-stay is k _ (detect_entry c i o, refl, detect_entry-open i o))
  ]

  detections-unresolved :
      (is : List ExecutiveInsight) (k : Text) (o : Option ExecutiveInsight)
      → has_key k is ≡ true
      → IsOpen (detections c is k o)
  unfolding detections
  detections-unresolved [] k o h = absurd (cc)
  detections-unresolved (i ∷ is) k o h = elim (Bool-cases (text_eq i.key k)) [
    | inr other ↦ rw other (detections-unresolved is k o (rw other at h))
    | inl same ↦ rw same (detections-stay is k _ (detect_entry c i o, refl, detect_entry-open i o))
  ]

  settle-inactive :
      (o : Option ExecutiveInsight) (e : ExecutiveInsight)
      → settle c o ≡ some e
      → e.status ≢ Status.active
  settle-inactive none e h = absurd (cc)
  settle-inactive (some f) e h = go f.status refl
    where
      go : (st : Status) → f.status ≡ st → e.status ≢ Status.active
      go Status.active q =
          let h' : some (undetected Status.active c f) ≡ some e =
            ap (λ x. some (undetected x c f)) (sym q) ∙ h in
          λ r. cc
      go Status.new q =
          let h' : some f ≡ some e = ap (λ x. some (undetected x c f)) (sym q) ∙ h in λ r. cc
      go Status.resolved q =
          let h' : some f ≡ some e = ap (λ x. some (undetected x c f)) (sym q) ∙ h in λ r. cc
      go Status.archived q =
          let h' : some f ≡ some e = ap (λ x. some (undetected x c f)) (sym q) ∙ h in λ r. cc

  module _ {S T : Type 0} {IsValid : S → Type 0} {repo : Repository S} {timeline : Timeline T}
      (laws : IsRepository IsValid repo) (keeps : IsTimeline timeline) where
    reconcile_view :
        (is : List ExecutiveInsight) (s : S) (t : T) (q : Progress S T) (k : Text)
        → IsValid s
        → reconcile repo timeline is c s t ≡ ok q
        → repo.find_by_key k q.repo ≡ reconciled c is k (repo.find_by_key k s)
    reconcile_view is s t q k v h =
        let (q', h', r) = reconcile_refines laws keeps c is s t v in
        let same : q ≡ q' = cc in rw same (r.view k)

    -- Whatever insights are reconciled, a stored entry stays in the repository under its key, with its
    -- first detection and its creation, and its version and its count of occurrences do not fall; an
    -- archived entry does not change at all.
    pub reconcile-Succeeds :
        (is : List ExecutiveInsight) (s : S) (t : T) (q : Progress S T) (k : Text)
        (e : ExecutiveInsight)
        → IsValid s
        → reconcile repo timeline is c s t ≡ ok q
        → repo.find_by_key k s ≡ some e
        → (e' : ExecutiveInsight) × (repo.find_by_key k q.repo ≡ some e') × Succeeds e e'
    reconcile-Succeeds is s t q k e v h found =
        let (e', r, s') = reconciled-Succeeds is k e in
        (e', reconcile_view is s t q k v h ∙ ap (reconciled c is k) found ∙ r, s')

    -- After a reconciliation an active insight is one of those that were detected.
    pub reconcile_active :
        (is : List ExecutiveInsight) (s : S) (t : T) (q : Progress S T) (k : Text)
        (e : ExecutiveInsight)
        → IsValid s
        → reconcile repo timeline is c s t ≡ ok q
        → repo.find_by_key k q.repo ≡ some e
        → e.status ≡ Status.active
        → has_key k is ≡ true
    unfolding reconciled
    reconcile_active is s t q k e v h found st = elim (Bool-cases (has_key k is)) [
      | inl there ↦ there
      | inr away ↦
          let view = sym found ∙ reconcile_view is s t q k v h in
          absurd (settle-inactive _ e (sym (rw away at view)) st)
    ]

    -- After a reconciliation every detected key has an entry, and it is not resolved.
    pub reconcile_detected :
        (is : List ExecutiveInsight) (s : S) (t : T) (q : Progress S T) (k : Text)
        → IsValid s
        → reconcile repo timeline is c s t ≡ ok q
        → has_key k is ≡ true
        → (e : ExecutiveInsight) × (repo.find_by_key k q.repo ≡ some e)
          × (e.status ≢ Status.resolved)
    unfolding reconciled
    reconcile_detected is s t q k v h there =
        let (e, d, o) = detections-unresolved is k (repo.find_by_key k s) there in
        let view = reconcile_view is s t q k v h in (e, rw there at view ∙ d, o)
