-- ===== src/Insights/Engine.antt =====
-- The class of lifecycle/executive-insight-lifecycle-engine.ts: the engine over a repository and a timeline. The
-- `Set` of processed keys is a list. Where the source throws, `thrown` carries the reason and the
-- state as it stands then.
pub mod Steps
pub mod Loops
pub mod Refinement
pub mod History
pub mod Archive
use mathlib.Core.Option
use royale_ai_platform.Prelude.{
  Bool, true, false, Option, none, some, List, [], ◌∷◌, ◌++◌, any, if◌then◌else◌,
}
use royale_ai_platform.Text.{Text, text_eq}
use royale_ai_platform.Insights.Domain.{
  Status, ExecutiveInsight, EventType, DomainEvent, LifecycleContext, status_eq,
}
use royale_ai_platform.Insights.Transitions.{
  LifecycleTransition, created, activated, ignored, unchanged, TransitionResult, compute_transition,
}
use royale_ai_platform.Insights.Lifecycle.{
  apply_lifecycle_fields, transition_to_event_type, event_of,
}
use royale_ai_platform.Insights.Stores.{Repository, Timeline}

pub data Reason : Type 0 where
  invalid_transition : LifecycleTransition → Reason
  insight_not_found : Text → Reason
  already_archived : Text → Reason
  not_archived : Text → Reason
  -- what `repository.reopen` throws
  repository_error : Reason

-- `LifecycleReconciliationResult`
pub record ReconciliationResult : Type 0 where
  pub created : List ExecutiveInsight
  pub activated : List ExecutiveInsight
  pub updated : List ExecutiveInsight
  pub resolved : List ExecutiveInsight
  pub unchanged : List ExecutiveInsight
  pub ignored : List ExecutiveInsight

abbrev pub no_results : ReconciliationResult
no_results = record {
  created = [];
  activated = [];
  updated = [];
  resolved = [];
  unchanged = [];
  ignored = [];
}

-- The local variables of `reconcile` and the state of the two stores.
pub record Progress (S T : Type 0) : Type 0 where
  pub repo : S
  pub timeline : T
  pub results : ReconciliationResult
  pub processed_keys : List Text

pub data Outcome (A : Type 0) (B : Type 0) : Type 0 where
  ok : A → Outcome A B
  thrown : Reason → B → Outcome A B

-- The list that a saved insight goes to: `else` takes what is neither created nor activated.
abbrev file_saved :
    LifecycleTransition → ExecutiveInsight → ReconciliationResult → ReconciliationResult
file_saved created i rs = record rs { created = rs.created ++ i ∷ [] }
file_saved activated i rs = record rs { activated = rs.activated ++ i ∷ [] }
file_saved _ i rs = record rs { updated = rs.updated ++ i ∷ [] }

-- `ignored.push(existing!)`; the transition is `ignored` only with an existing insight.
abbrev push_existing : Option ExecutiveInsight → List ExecutiveInsight → List ExecutiveInsight
push_existing none is = is
push_existing (some e) is = is ++ e ∷ []

abbrev pub and_then :
    {S T : Type 0}
    → Outcome (Progress S T) (Progress S T)
    → (Progress S T → Outcome (Progress S T) (Progress S T))
    → Outcome (Progress S T) (Progress S T)
and_then (ok p) k = k p
and_then (thrown reason p) k = thrown reason p

abbrev pub is_processed : Text → List Text → Bool
is_processed k ks = any (λ j. text_eq j k) ks

module _ {S T : Type 0} (repo : Repository S) (timeline : Timeline T) where
  -- From `transitionToEventType` on, with the saved insight.
  abbrev log_saved :
      Text
      → LifecycleTransition
      → LifecycleContext
      → ExecutiveInsight × S
      → Option EventType
      → Progress S T
      → Outcome (Progress S T) (Progress S T)
  log_saved key tr c (saved, s) none p = thrown (invalid_transition tr) (record p { repo = s })
  log_saved key tr c (saved, s) (some type) p = ok (record p {
    repo = s;
    timeline = timeline.append (event_of key type saved.version c) p.timeline;
    results = file_saved tr saved p.results;
  })

  abbrev save_changed :
      ExecutiveInsight
      → Option ExecutiveInsight
      → TransitionResult
      → LifecycleContext
      → Progress S T
      → Outcome (Progress S T) (Progress S T)
  save_changed i existing t c p =
      log_saved i.key t.transition c (repo.save (apply_lifecycle_fields i existing t c) p.repo)
        (transition_to_event_type t.transition) p

  abbrev dispatch :
      LifecycleTransition
      → Option ExecutiveInsight
      → ExecutiveInsight
      → TransitionResult
      → LifecycleContext
      → Progress S T
      → Outcome (Progress S T) (Progress S T)
  dispatch ignored existing i t c p = ok (record p {
    results = record p.results { ignored = push_existing existing p.results.ignored };
  })
  dispatch unchanged (some e) i t c p =
      ok (record p { results = record p.results { unchanged = p.results.unchanged ++ e ∷ [] } })
  dispatch _ existing i t c p = save_changed i existing t c p

  -- One round of the loop over the new insights.
  unfoldable pub detect_one :
      LifecycleContext → ExecutiveInsight → Progress S T → Outcome (Progress S T) (Progress S T)
  detect_one c i p =
      let existing = repo.find_by_key i.key p.repo in
      let t = compute_transition (Option.map (λ (e : ExecutiveInsight). e.status) existing) true in
      dispatch t.transition existing i t c (record p { processed_keys = i.key ∷ p.processed_keys })

  unfoldable pub detect_all :
      LifecycleContext
      → List ExecutiveInsight
      → Progress S T
      → Outcome (Progress S T) (Progress S T)
  detect_all c [] p = ok p
  detect_all c (i ∷ is) p = and_then (detect_one c i p) (λ p'. detect_all c is p')

  -- One round of the loop over the active insights, for one that was not processed.
  unfoldable pub resolve_one : LifecycleContext → ExecutiveInsight → Progress S T → Progress S T
  resolve_one c a p =
      let t = compute_transition (some Status.active) false in
      let (saved, s) = repo.save (apply_lifecycle_fields a (some a) t c) p.repo in
      record p {
        repo = s;
        timeline = timeline.append (event_of a.key EventType.resolved saved.version c) p.timeline;
        results = record p.results { resolved = p.results.resolved ++ saved ∷ [] };
      }

  unfoldable pub resolve_all :
      LifecycleContext → List ExecutiveInsight → Progress S T → Progress S T
  resolve_all c [] p = p
  resolve_all c (a ∷ rest) p =
      resolve_all c rest (if is_processed a.key p.processed_keys then p else resolve_one c a p)

  unfoldable pub reconcile :
      List ExecutiveInsight → LifecycleContext → S → T → Outcome (Progress S T) (Progress S T)
  reconcile is c s t =
      and_then
        (detect_all c is
          (record { repo = s; timeline = t; results = no_results; processed_keys = [] }))
        (λ p. ok (resolve_all c (repo.find_active p.repo) p))

  -- The event that `archive` and `reopen` append and return.
  abbrev logged : DomainEvent → S → T → Outcome (DomainEvent × S × T) (S × T)
  logged e s t = ok (e, s, timeline.append e t)

  abbrev archive_found :
      Text
      → LifecycleContext
      → Option ExecutiveInsight
      → S
      → T
      → Outcome (DomainEvent × S × T) (S × T)
  archive_found key c none s t = thrown (insight_not_found key) (s, t)
  archive_found key c (some i) s t =
      if status_eq i.status Status.archived
      then thrown (already_archived key) (s, t)
      else logged (event_of key EventType.archived i.version c) (repo.archive i.id s) t

  unfoldable pub archive : Text → LifecycleContext → S → T → Outcome (DomainEvent × S × T) (S × T)
  archive key c s t = archive_found key c (repo.find_by_key key s) s t

  abbrev reopen_saved :
      Text
      → LifecycleContext
      → Option (ExecutiveInsight × S)
      → S
      → T
      → Outcome (DomainEvent × S × T) (S × T)
  reopen_saved key c none s t = thrown repository_error (s, t)
  reopen_saved key c (some (i, s')) s t = logged (event_of key EventType.reopened i.version c) s' t

  abbrev reopen_found :
      Text
      → LifecycleContext
      → Option ExecutiveInsight
      → S
      → T
      → Outcome (DomainEvent × S × T) (S × T)
  reopen_found key c none s t = thrown (insight_not_found key) (s, t)
  reopen_found key c (some i) s t =
      if status_eq i.status Status.archived
      then reopen_saved key c (repo.reopen i.id s) s t
      else thrown (not_archived key) (s, t)

  unfoldable pub reopen : Text → LifecycleContext → S → T → Outcome (DomainEvent × S × T) (S × T)
  reopen key c s t = reopen_found key c (repo.find_by_key key s) s t
