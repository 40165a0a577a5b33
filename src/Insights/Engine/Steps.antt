-- ===== src/Insights/Engine/Steps.antt =====
-- One round of each loop of `reconcile`: it does not throw, and what it changes.
use mathlib.Core.Option
use mathlib.Core.Path.{ap₂}
use royale_ai_platform.Prelude.{
  ℕ, ◌+◌, true, Option, none, some, List, [], ◌∷◌, ◌++◌, ◌≡◌, refl, sym, ap, ◌∙◌, arith,
  if◌then◌else◌, Bool-cases, inl, inr, length, length-append,
}
use royale_ai_platform.Text.{Text, text_eq, text_eq_iff}
use royale_ai_platform.Insights.Domain.{Status, ExecutiveInsight, DomainEvent, LifecycleContext}
use royale_ai_platform.Insights.Transitions.{compute_transition}
use royale_ai_platform.Insights.Lifecycle.{apply_lifecycle_fields, transition_to_event_type}
use royale_ai_platform.Insights.Stores.{Repository, Timeline, IsRepository, IsTimeline}
use royale_ai_platform.Insights.Spec.{detect_entry, redetect, resolve_entry}
use royale_ai_platform.Insights.Engine.{
  ReconciliationResult, Progress, ok, dispatch, detect_one, resolve_one,
}

-- How many of the results were saved, and how many stand for a detection.
abbrev pub written : ReconciliationResult → ℕ
written rs = length rs.created + length rs.activated + length rs.updated + length rs.resolved

abbrev pub handled : ReconciliationResult → ℕ
handled rs = length rs.created + length rs.activated + length rs.updated + length rs.ignored

abbrev pub status_of : Option ExecutiveInsight → Option Status
status_of o = Option.map (λ (e : ExecutiveInsight). e.status) o

length-snoc : {A : Type 0} (xs : List A) (x : A) → length (xs ++ x ∷ []) ≡ length xs + 1
length-snoc xs x = length-append xs (x ∷ [])

module _ {S T : Type 0} {IsValid : S → Type 0} {repo : Repository S} {timeline : Timeline T}
    (laws : IsRepository IsValid repo) (keeps : IsTimeline timeline) (c : LifecycleContext) where
  -- The facts on a round for a detected insight, from `p` to `q`.
  pub record Detects (i : ExecutiveInsight) (p q : Progress S T) : Type 0 where
    pub valid : IsValid q.repo
    pub keys : q.processed_keys ≡ i.key ∷ p.processed_keys
    pub view :
        (k : Text)
        → repo.find_by_key k q.repo ≡ (
            if text_eq i.key k
            then some (detect_entry c i (repo.find_by_key i.key p.repo))
            else repo.find_by_key k p.repo)
    pub logs :
        length (timeline.find_all q.timeline) + written p.results
        ≡ length (timeline.find_all p.timeline) + written q.results
    pub counts : handled q.results ≡ handled p.results + 1
    pub same_unchanged : q.results.unchanged ≡ p.results.unchanged
    pub same_resolved : q.results.resolved ≡ p.results.resolved

  length-append_event :
      (e : DomainEvent) (t : T)
      → length (timeline.find_all (timeline.append e t)) ≡ length (timeline.find_all t) + 1
  length-append_event e t =
      ap length (keeps.find_all-append e t) ∙ length-append (timeline.find_all t) (e ∷ [])

  -- A round that saves `x` and logs it.
  saved-Detects :
      (i x : ExecutiveInsight) (p : Progress S T) (e : DomainEvent) (rs : ReconciliationResult)
      → IsValid p.repo
      → x.key ≡ i.key
      → x ≡ detect_entry c i (repo.find_by_key i.key p.repo)
      → written rs ≡ written p.results + 1
      → handled rs ≡ handled p.results + 1
      → rs.unchanged ≡ p.results.unchanged
      → rs.resolved ≡ p.results.resolved
      → Detects i p (record {
        repo = (repo.save x p.repo).1;
        timeline = timeline.append e p.timeline;
        results = rs;
        processed_keys = i.key ∷ p.processed_keys;
      })
  saved-Detects i x p e rs v key same w h u r = record {
    valid = laws.save_valid x p.repo v;
    keys = refl;
    view = λ k.
        laws.find_by_key-save x k p.repo
        ∙ ap₂ (λ j y. if text_eq j k then some y else repo.find_by_key k p.repo) key same;
    logs = omega (arith, length-append_event e p.timeline);
    counts = h;
    same_unchanged = u;
    same_resolved = r;
  }

  entry_of :
      (i e : ExecutiveInsight) (p : Progress S T) (st : Status)
      → repo.find_by_key i.key p.repo ≡ some e
      → some e.status ≡ some st
      → redetect st c i e ≡ detect_entry c i (repo.find_by_key i.key p.repo)
  entry_of i e p st found h =
      let same : e.status ≡ st = cc in
      ap (λ x. redetect x c i e) (sym same) ∙ ap (detect_entry c i) (sym found)

  kept_view :
      (i e : ExecutiveInsight) (p : Progress S T)
      → repo.find_by_key i.key p.repo ≡ some e
      → some e.status ≡ some Status.archived
      → (k : Text)
      → repo.find_by_key k p.repo ≡ (
          if text_eq i.key k
          then some (detect_entry c i (repo.find_by_key i.key p.repo))
          else repo.find_by_key k p.repo)
  kept_view i e p found h k = elim (Bool-cases (text_eq i.key k)) [
    | inl same ↦ rw same (
        ap (λ j. repo.find_by_key j p.repo) (sym ((text_eq_iff i.key k).0 same))
        ∙ found
        ∙ ap some (entry_of i e p Status.archived found h))
    | inr other ↦ rw other
  ]

  dispatch_ok :
      (i : ExecutiveInsight) (p : Progress S T) (st : Option Status) (o : Option ExecutiveInsight)
      → IsValid p.repo
      → repo.find_by_key i.key p.repo ≡ o
      → status_of o ≡ st
      → (q : Progress S T) × (dispatch repo timeline
            (compute_transition st true).transition
            o
            i
            (compute_transition st true)
            c
            (record p { processed_keys = i.key ∷ p.processed_keys })
          ≡ ok q)
        × Detects i p q
  unfolding compute_transition transition_to_event_type apply_lifecycle_fields
  dispatch_ok i p none none v found h = (
    _,
    refl,
    saved-Detects i _ p _ _ v refl (ap (detect_entry c i) (sym found)) (omega (arith, length-snoc))
        (omega (arith, length-snoc)) refl refl,
  )
  dispatch_ok i p none (some e) v found h = absurd (cc)
  dispatch_ok i p (some st) none v found h = absurd (cc)
  dispatch_ok i p (some Status.archived) (some e) v found h = (
    _,
    refl,
    record {
      valid = v;
      keys = refl;
      view = kept_view i e p found h;
      logs = refl;
      counts = omega (arith, length-snoc);
      same_unchanged = refl;
      same_resolved = refl;
    },
  )
  dispatch_ok i p (some Status.active) (some e) v found h = (
    _,
    refl,
    saved-Detects i _ p _ _ v refl (entry_of i e p Status.active found h)
        (omega (arith, length-snoc)) (omega (arith, length-snoc)) refl refl,
  )
  dispatch_ok i p (some Status.new) (some e) v found h = (
    _,
    refl,
    saved-Detects i _ p _ _ v refl (entry_of i e p Status.new found h) (omega (arith, length-snoc))
        (omega (arith, length-snoc)) refl refl,
  )
  dispatch_ok i p (some Status.resolved) (some e) v found h = (
    _,
    refl,
    saved-Detects i _ p _ _ v refl (entry_of i e p Status.resolved found h)
        (omega (arith, length-snoc)) (omega (arith, length-snoc)) refl refl,
  )

  -- A round of the loop over the new insights does not throw.
  pub detect_one-Detects :
      (i : ExecutiveInsight) (p : Progress S T)
      → IsValid p.repo
      → (q : Progress S T) × (detect_one repo timeline c i p ≡ ok q) × Detects i p q
  unfolding detect_one
  detect_one-Detects i p v = dispatch_ok i p _ (repo.find_by_key i.key p.repo) v refl refl

  -- The facts on a round for an active insight that was not detected.
  pub record Resolves (a : ExecutiveInsight) (p q : Progress S T) : Type 0 where
    pub valid : IsValid q.repo
    pub keys : q.processed_keys ≡ p.processed_keys
    pub view :
        (k : Text)
        → repo.find_by_key k q.repo
          ≡ (if text_eq a.key k then some (resolve_entry c a) else repo.find_by_key k p.repo)
    pub logs :
        length (timeline.find_all q.timeline) + written p.results
        ≡ length (timeline.find_all p.timeline) + written q.results
    pub counts : handled q.results ≡ handled p.results
    pub same_unchanged : q.results.unchanged ≡ p.results.unchanged

  pub resolve_one-Resolves :
      (a : ExecutiveInsight) (p : Progress S T)
      → IsValid p.repo
      → Resolves a p (resolve_one repo timeline c a p)
  unfolding resolve_one compute_transition apply_lifecycle_fields
  resolve_one-Resolves a p v = record {
    valid = laws.save_valid _ p.repo v;
    keys = refl;
    view = λ k. laws.find_by_key-save (resolve_entry c a) k p.repo;
    logs = omega (arith, length-append_event, length-snoc);
    counts = refl;
    same_unchanged = refl;
  }
