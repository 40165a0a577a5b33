-- ===== src/Insights/Engine/Loops.antt =====
-- The two loops of `reconcile` as wholes.
use mathlib.Core.Option
use royale_ai_platform.Prelude.{
  ◌+◌, Bool, true, false, Option, some, List, [], ◌∷◌, ◌≡◌, refl, ap, ◌∙◌, arith, if◌then◌else◌,
  Bool-cases, inl, inr, length, All, ◌||◌, ◌&&◌, not,
}
use royale_ai_platform.Text.{Text, text_eq, text_eq_iff}
use royale_ai_platform.Insights.Domain.{Status, ExecutiveInsight, LifecycleContext}
use royale_ai_platform.Insights.Stores.{Repository, Timeline, IsRepository, IsTimeline, has_key}
use royale_ai_platform.Insights.Spec.{detect_entry, detections, resolve_entry}
use royale_ai_platform.Insights.Engine.{
  Progress, ok, detect_all, and_then, resolve_one, resolve_all, is_processed,
}
use royale_ai_platform.Insights.Engine.Steps.{
  written, handled, detect_one-Detects, resolve_one-Resolves,
}

module _ {S T : Type 0} {IsValid : S → Type 0} {repo : Repository S} {timeline : Timeline T}
    (laws : IsRepository IsValid repo) (keeps : IsTimeline timeline) (c : LifecycleContext) where
  pub record DetectsAll (is : List ExecutiveInsight) (p q : Progress S T) : Type 0 where
    pub valid : IsValid q.repo
    pub keys :
        (k : Text)
        → is_processed k q.processed_keys ≡ (has_key k is || is_processed k p.processed_keys)
    pub view :
        (k : Text) → repo.find_by_key k q.repo ≡ detections c is k (repo.find_by_key k p.repo)
    pub logs :
        length (timeline.find_all q.timeline) + written p.results
        ≡ length (timeline.find_all p.timeline) + written q.results
    pub counts : handled q.results ≡ handled p.results + length is
    pub same_unchanged : q.results.unchanged ≡ p.results.unchanged

  detect_shift :
      (i : ExecutiveInsight) (s : S) (k : Text)
      → (if text_eq i.key k
          then some (detect_entry c i (repo.find_by_key i.key s))
          else repo.find_by_key k s)
        ≡ (if text_eq i.key k
            then some (detect_entry c i (repo.find_by_key k s))
            else repo.find_by_key k s)
  detect_shift i s k = elim (Bool-cases (text_eq i.key k)) [
    | inl same ↦
        rw same
          (ap (λ j. some (detect_entry c i (repo.find_by_key j s))) ((text_eq_iff i.key k).0 same))
    | inr other ↦ rw other
  ]

  processed_swap : (a b x : Bool) → (b || (a || x)) ≡ ((a || b) || x)
  processed_swap a b x = ground arith

  pub detect_all-DetectsAll :
      (is : List ExecutiveInsight) (p : Progress S T)
      → IsValid p.repo
      → (q : Progress S T) × (detect_all repo timeline c is p ≡ ok q) × DetectsAll is p q
  unfolding detect_all detections
  detect_all-DetectsAll [] p v = (
    p,
    refl,
    record {
      valid = v;
      keys = λ k. refl;
      view = λ k. refl;
      logs = refl;
      counts = omega arith;
      same_unchanged = refl;
    },
  )
  detect_all-DetectsAll (i ∷ is) p v =
      let (p', e, d) = detect_one-Detects laws keeps c i p v in
      let (q, e', ds) = detect_all-DetectsAll is p' d.valid in
      (
        q,
        ap (λ o. and_then o (λ x. detect_all repo timeline c is x)) e ∙ e',
        record {
          valid = ds.valid;
          keys = λ k.
              ds.keys k
              ∙ ap (λ ks. has_key k is || is_processed k ks) d.keys
              ∙ processed_swap (text_eq i.key k) (has_key k is) (is_processed k p.processed_keys);
          view = λ k. ds.view k ∙ ap (detections c is k) (d.view k ∙ detect_shift i p.repo k);
          logs = omega (arith, ds.logs, d.logs);
          counts = omega (arith, ds.counts, d.counts);
          same_unchanged = ds.same_unchanged ∙ d.same_unchanged;
        },
      )

  -- The loop over the active insights `as`, which are entries of the snapshot `view`.
  pub record ResolvesAll (snapshot : Text → Option ExecutiveInsight)
      (actives : List ExecutiveInsight) (p q : Progress S T) : Type 0 where
    pub valid : IsValid q.repo
    pub view :
        (k : Text)
        → repo.find_by_key k q.repo ≡ (
            if not (is_processed k p.processed_keys) && has_key k actives
            then Option.map (resolve_entry c) (snapshot k)
            else repo.find_by_key k p.repo)
    pub logs :
        length (timeline.find_all q.timeline) + written p.results
        ≡ length (timeline.find_all p.timeline) + written q.results
    pub counts : handled q.results ≡ handled p.results
    pub same_unchanged : q.results.unchanged ≡ p.results.unchanged

  -- What the entries of the snapshot are.
  abbrev pub AreActive : (Text → Option ExecutiveInsight) → List ExecutiveInsight → Type 0
  AreActive snapshot actives =
      All (λ (a : ExecutiveInsight). (snapshot a.key ≡ some a) × (a.status ≡ Status.active)) actives

  -- The view of `k` after a round for `a` and then a round for each of `rest`.
  skip_view :
      (snapshot : Text → Option ExecutiveInsight) (a : ExecutiveInsight)
      (rest : List ExecutiveInsight) (ks : List Text) (k : Text) (o : Option ExecutiveInsight)
      → is_processed a.key ks ≡ true
      → (if not (is_processed k ks) && has_key k rest
          then Option.map (resolve_entry c) (snapshot k)
          else o)
        ≡ (if not (is_processed k ks) && (text_eq a.key k || has_key k rest)
            then Option.map (resolve_entry c) (snapshot k)
            else o)
  skip_view snapshot a rest ks k o done = elim (Bool-cases (text_eq a.key k)) [
    | inr other ↦ rw other
    | inl same ↦ let done' = rw ((text_eq_iff a.key k).0 same) at done in rw done'
  ]

  round_view :
      (snapshot : Text → Option ExecutiveInsight) (a : ExecutiveInsight)
      (rest : List ExecutiveInsight) (ks : List Text) (k : Text) (o : Option ExecutiveInsight)
      → snapshot a.key ≡ some a
      → is_processed a.key ks ≡ false
      → (if not (is_processed k ks) && has_key k rest
          then Option.map (resolve_entry c) (snapshot k)
          else (if text_eq a.key k then some (resolve_entry c a) else o))
        ≡ (if not (is_processed k ks) && (text_eq a.key k || has_key k rest)
            then Option.map (resolve_entry c) (snapshot k)
            else o)
  round_view snapshot a rest ks k o found todo = elim (Bool-cases (text_eq a.key k)) [
    | inr other ↦ rw other
    | inl same ↦
        let e = (text_eq_iff a.key k).0 same in
        let todo' = rw e at todo in
        let found' = rw e at found in rw (same, todo', found') (ground arith)
  ]

  pub resolve_all-ResolvesAll :
      (snapshot : Text → Option ExecutiveInsight) (actives : List ExecutiveInsight)
      (p : Progress S T)
      → IsValid p.repo
      → AreActive snapshot actives
      → ResolvesAll snapshot actives p (resolve_all repo timeline c actives p)
  unfolding resolve_all
  resolve_all-ResolvesAll snapshot [] p v h = record {
    valid = v;
    view = λ k. ground arith;
    logs = refl;
    counts = refl;
    same_unchanged = refl;
  }
  resolve_all-ResolvesAll snapshot (a ∷ rest) p v (h, hs) =
      elim (Bool-cases (is_processed a.key p.processed_keys)) [
        | inl done ↦
            let r = resolve_all-ResolvesAll snapshot rest p v hs in
            rw done (record {
              valid = r.valid;
              view = λ k. r.view k ∙ skip_view snapshot a rest p.processed_keys k _ done;
              logs = r.logs;
              counts = r.counts;
              same_unchanged = r.same_unchanged;
            })
        | inr todo ↦
            let one = resolve_one-Resolves laws keeps c a p v in
            let r =
              resolve_all-ResolvesAll snapshot rest (resolve_one repo timeline c a p) one.valid
                hs in
            rw todo (record {
              valid = r.valid;
              view = λ k.
                  r.view k
                  ∙ ap
                      (λ o.
                        if not (is_processed k (resolve_one repo timeline c a p).processed_keys)
                          && has_key k rest
                        then Option.map (resolve_entry c) (snapshot k)
                        else o)
                      (one.view k)
                  ∙ ap
                      (λ ks.
                        if not (is_processed k ks) && has_key k rest
                        then Option.map (resolve_entry c) (snapshot k)
                        else (if text_eq a.key k
                            then some (resolve_entry c a)
                            else repo.find_by_key k p.repo))
                      one.keys
                  ∙ round_view snapshot a rest p.processed_keys k _ h.0 todo;
              logs = omega (arith, r.logs, one.logs);
              counts = r.counts ∙ one.counts;
              same_unchanged = r.same_unchanged ∙ one.same_unchanged;
            })
      ]
