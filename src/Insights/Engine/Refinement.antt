-- ===== src/Insights/Engine/Refinement.antt =====
-- `reconcile` against its description in Spec.antt, and what follows for the stored insights.
use mathlib.Core.Option
use royale_ai_platform.Prelude.{
  ◌+◌, Bool, true, false, Option, none, some, List, [], ◌∷◌, ◌≡◌, refl, sym, ap, ◌∙◌, arith, ◌≢◌,
  if◌then◌else◌, Bool-cases, inl, inr, length, ◌||◌, ◌&&◌, not,
}
use royale_ai_platform.Text.{Text, text_eq, text_eq_iff}
use royale_ai_platform.Insights.Domain.{Status, ExecutiveInsight, LifecycleContext}
use royale_ai_platform.Insights.Stores.{Repository, Timeline, IsRepository, IsTimeline, has_key}
use royale_ai_platform.Insights.Spec.{detections, resolve_entry, settle, undetected, reconciled}
use royale_ai_platform.Insights.Engine.{Progress, ok, no_results, and_then, resolve_all, reconcile}
use royale_ai_platform.Insights.Engine.Steps.{written, handled}
use royale_ai_platform.Insights.Engine.Loops.{
  detect_all-DetectsAll, AreActive, resolve_all-ResolvesAll,
}

or_false : (b : Bool) → (b || false) ≡ b
or_false true = refl
or_false false = refl

module _ {S T : Type 0} {IsValid : S → Type 0} {repo : Repository S} {timeline : Timeline T}
    (laws : IsRepository IsValid repo) (keeps : IsTimeline timeline) (c : LifecycleContext) where
  -- What a reconciliation from the stores `s` and `t` comes to.
  pub record Reconciles (is : List ExecutiveInsight) (s : S) (t : T) (q : Progress S T)
      : Type 0 where
    pub valid : IsValid q.repo
    pub view : (k : Text) → repo.find_by_key k q.repo ≡ reconciled c is k (repo.find_by_key k s)
    pub logs :
        length (timeline.find_all q.timeline) ≡ length (timeline.find_all t) + written q.results
    pub counts : handled q.results ≡ length is
    pub none_unchanged : q.results.unchanged ≡ []

  active_key :
      (s : S) (actives : List ExecutiveInsight) (k : Text)
      → AreActive laws keeps c (λ j. repo.find_by_key j s) actives
      → has_key k actives ≡ true
      → (a : ExecutiveInsight) × (repo.find_by_key k s ≡ some a) × (a.status ≡ Status.active)
  active_key s [] k h e = absurd (cc)
  active_key s (a ∷ rest) k (h, hs) e = elim (Bool-cases (text_eq a.key k)) [
    | inl same ↦ (a, ap (λ j. repo.find_by_key j s) (sym ((text_eq_iff a.key k).0 same)) ∙ h.0, h.1)
    | inr other ↦ active_key s rest k hs (rw other at e)
  ]

  settle_active :
      (a : ExecutiveInsight)
      → a.status ≡ Status.active
      → some (resolve_entry c a) ≡ settle c (some a)
  settle_active a e = ap (λ st. some (undetected st c a)) (sym e)

  settle_other :
      (o : Option ExecutiveInsight)
      → ((a : ExecutiveInsight) → o ≡ some a → a.status ≢ Status.active)
      → o ≡ settle c o
  settle_other none h = refl
  settle_other (some a) h = go a.status refl
    where
      go : (st : Status) → a.status ≡ st → some a ≡ some (undetected st c a)
      go Status.active e = absurd (h a refl e)
      go Status.new e = refl
      go Status.resolved e = refl
      go Status.archived e = refl

  -- What the second loop makes of a key is what the description settles it to.
  settled :
      (s : S) (k : Text)
      → IsValid s
      → (if has_key k (repo.find_active s)
          then Option.map (resolve_entry c) (repo.find_by_key k s)
          else repo.find_by_key k s)
        ≡ settle c (repo.find_by_key k s)
  settled s k v = elim (Bool-cases (has_key k (repo.find_active s))) [
    | inl there ↦
        let (a, found, st) =
          active_key s (repo.find_active s) k (laws.find_active-sound s v) there in
        rw (there, found) (settle_active a st)
    | inr away ↦ rw away (
        settle_other (repo.find_by_key k s)
          (λ a found st. let there = laws.find_active-complete k s a v found st in cc))
  ]

  final_view :
      (is : List ExecutiveInsight) (k : Text) (s s' : S) (b : Bool)
      → IsValid s'
      → repo.find_by_key k s' ≡ detections c is k (repo.find_by_key k s)
      → b ≡ has_key k is
      → (if not b && has_key k (repo.find_active s')
          then Option.map (resolve_entry c) (repo.find_by_key k s')
          else repo.find_by_key k s')
        ≡ reconciled c is k (repo.find_by_key k s)
  unfolding reconciled
  final_view is k s s' true v h e = rw (← e) h
  final_view is k s s' false v h e = rw (← e) (settled s' k v ∙ ap (settle c) h)

  -- If the repository and the timeline keep their laws, a reconciliation does not throw; the entry of
  -- every key comes to be what the description in Spec.antt makes of it; one event is appended
  -- for each result that is created, activated, updated or resolved; the created, activated,
  -- updated and ignored results are as many as the new insights; and none is unchanged.
  pub reconcile_refines :
      (is : List ExecutiveInsight) (s : S) (t : T)
      → IsValid s
      → (q : Progress S T) × (reconcile repo timeline is c s t ≡ ok q) × Reconciles is s t q
  unfolding reconcile
  reconcile_refines is s t v =
      let start : Progress S T = record {
        repo = s;
        timeline = t;
        results = no_results;
        processed_keys = [];
      } in
      let (p, e, d) = detect_all-DetectsAll laws keeps c is start v in
      let actives = repo.find_active p.repo in
      let r =
        resolve_all-ResolvesAll laws keeps c (λ j. repo.find_by_key j p.repo) actives p d.valid
          (laws.find_active-sound p.repo d.valid) in
      (
        resolve_all repo timeline c actives p,
        ap (λ o. and_then o (λ x. ok (resolve_all repo timeline c (repo.find_active x.repo) x))) e,
        record {
          valid = r.valid;
          view =
              λ k. r.view k ∙ final_view is k s p.repo _ d.valid (d.view k) (d.keys k ∙ or_false _);
          logs = omega (arith, r.logs, d.logs);
          counts = r.counts ∙ d.counts ∙ omega arith;
          none_unchanged = r.same_unchanged ∙ d.same_unchanged;
        },
      )
