-- ===== src/Insights/Stores.antt =====
-- The two interfaces behind the lifecycle engine, as records of operations over a state:
-- repository/executive-insight-repository.ts and timeline/executive-insight-timeline.ts. Promises are
-- awaited one after another, so an operation is a function of the state. `update`, which nothing
-- calls, is left out; a throw is `none`.
pub mod Memory
use royale_ai_platform.Prelude.{
  Bool, true, false, Option, none, some, List, [], ◌∷◌, ◌≡◌, ◌++◌, any, if◌then◌else◌, All,
}
use royale_ai_platform.Text.{Text, text_eq}
use royale_ai_platform.Insights.Domain.{Status, ExecutiveInsight, DomainEvent}

pub record Repository (S : Type 0) : Type 0 where
  pub save : ExecutiveInsight → S → ExecutiveInsight × S
  pub find : Text → S → Option ExecutiveInsight
  pub find_by_key : Text → S → Option ExecutiveInsight
  pub find_by_module : Text → S → List ExecutiveInsight
  pub find_active : S → List ExecutiveInsight
  pub archive : Text → S → S
  pub reopen : Text → S → Option (ExecutiveInsight × S)
  pub find_all : S → List ExecutiveInsight
  pub find_by_status : Status → S → List ExecutiveInsight

pub record Timeline (T : Type 0) : Type 0 where
  pub append : DomainEvent → T → T
  pub find_by_key : Text → T → List DomainEvent
  pub find_all : T → List DomainEvent

abbrev pub has_key : Text → List ExecutiveInsight → Bool
has_key k is = any (λ (i : ExecutiveInsight). text_eq i.key k) is

-- What the engine relies on of a repository, in the states that `IsValid` holds of: saving replaces
-- the entry of its key and no other, an entry is found under its own key, and the active entries
-- are those that are found and are active.
pub record IsRepository {S : Type 0} (IsValid : S → Type 0) (repo : Repository S) : Type 0 where
  pub save_valid : (i : ExecutiveInsight) (s : S) → IsValid s → IsValid (repo.save i s).1
  pub save_returns : (i : ExecutiveInsight) (s : S) → (repo.save i s).0 ≡ i
  pub find_by_key-save :
      (i : ExecutiveInsight) (k : Text) (s : S)
      → repo.find_by_key k (repo.save i s).1
        ≡ (if text_eq i.key k then some i else repo.find_by_key k s)
  pub find_by_key-key :
      (k : Text) (s : S) (i : ExecutiveInsight) → repo.find_by_key k s ≡ some i → i.key ≡ k
  pub find_active-sound :
      (s : S)
      → IsValid s
      → All
          (λ (i : ExecutiveInsight).
            (repo.find_by_key i.key s ≡ some i) × (i.status ≡ Status.active))
          (repo.find_active s)
  pub find_active-complete :
      (k : Text) (s : S) (i : ExecutiveInsight)
      → IsValid s
      → repo.find_by_key k s ≡ some i
      → i.status ≡ Status.active
      → has_key k (repo.find_active s) ≡ true

-- What is relied on of a timeline: an appended event comes last, under its own key.
pub record IsTimeline {T : Type 0} (timeline : Timeline T) : Type 0 where
  pub find_all-append :
      (e : DomainEvent) (t : T)
      → timeline.find_all (timeline.append e t) ≡ timeline.find_all t ++ e ∷ []
  pub find_by_key-append :
      (e : DomainEvent) (k : Text) (t : T)
      → timeline.find_by_key k (timeline.append e t) ≡ (
          if text_eq e.insight_key k
          then timeline.find_by_key k t ++ e ∷ []
          else timeline.find_by_key k t)
