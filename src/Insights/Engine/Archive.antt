-- ===== src/Insights/Engine/Archive.antt =====
-- `archive` and `reopen` of the engine.
use royale_ai_platform.Prelude.{
  ℕ, true, false, Option, none, some, [], ◌∷◌, ◌≡◌, refl, sym, ap, ◌∙◌, arith, ◌≢◌, ◌⊎◌, Bool-cases,
  Option-cases, inl, inr,
}
use royale_ai_platform.Text.{Text, text_eq, text_eq_iff}
use royale_ai_platform.Insights.Domain.{
  Status, ExecutiveInsight, EventType, DomainEvent, LifecycleContext, status_eq,
}
use royale_ai_platform.Insights.Lifecycle.{event_of}
use royale_ai_platform.Insights.Stores.{Repository, Timeline}
use royale_ai_platform.Insights.Stores.Memory.{
  Insights, Events, get, change, mark_archived, mark_reopened, with_id, memory_repository,
  memory_timeline,
}
use royale_ai_platform.Insights.Engine.{
  ok, thrown, Reason, insight_not_found, already_archived, archive, archive_found, reopen,
}

archived_of : (st : Status) → status_eq st Status.archived ≡ true → st ≡ Status.archived
archived_of Status.archived h = refl
archived_of _ h = absurd (cc)

module _ {S T : Type 0} (repo : Repository S) (timeline : Timeline T) where
  -- Why `archive` throws.
  abbrev pub IsRefused : Text → S → Reason → Type 0
  IsRefused key s reason =
      ((repo.find_by_key key s ≡ none) × (reason ≡ insight_not_found key))
      ⊎ ((i : ExecutiveInsight) × (repo.find_by_key key s ≡ some i)
          × (i.status ≡ Status.archived)
          × (reason ≡ already_archived key))

  archive_found-thrown :
      (key : Text) (c : LifecycleContext) (o : Option ExecutiveInsight) (s s' : S) (t t' : T)
      (reason : Reason)
      → archive_found repo timeline key c o s t ≡ thrown reason (s', t')
      → repo.find_by_key key s ≡ o
      → (s' ≡ s) × (t' ≡ t) × IsRefused key s reason
  archive_found-thrown key c none s s' t t' reason h e =
      (ground arith, ground arith, inl (e, ground arith))
  archive_found-thrown key c (some i) s s' t t' reason h e =
      elim (Bool-cases (status_eq i.status Status.archived)) [
        | inl done ↦
            let h' = rw done at h in
            (ground arith, ground arith, inr (i, e, archived_of i.status done, ground arith))
        | inr todo ↦ absurd (let h' = rw todo at h in ground arith)
      ]

  -- If `archive` throws, the stores are as they were, and the reason is that there is no insight of
  -- the key, or that it is archived already.
  pub archive_thrown :
      (key : Text) (c : LifecycleContext) (s s' : S) (t t' : T) (reason : Reason)
      → archive repo timeline key c s t ≡ thrown reason (s', t')
      → (s' ≡ s) × (t' ≡ t) × IsRefused key s reason
  unfolding archive
  archive_thrown key c s s' t t' reason h = archive_found-thrown key c _ s s' t t' reason h refl

  -- What a successful `archive` did.
  archive_ok :
      (key : Text) (c : LifecycleContext) (s s' : S) (t t' : T) (e : DomainEvent)
      → archive repo timeline key c s t ≡ ok (e, s', t')
      → (i : ExecutiveInsight) × (repo.find_by_key key s ≡ some i)
        × (e ≡ event_of key EventType.archived i.version c)
        × (s' ≡ repo.archive i.id s)
  unfolding archive
  archive_ok key c s s' t t' e h = elim (Option-cases (repo.find_by_key key s)) [
    | inl missing ↦ absurd (let h' = rw missing at h in cc)
    | inr (i, found) ↦
        let h' = rw found at h in
        elim (Bool-cases (status_eq i.status Status.archived)) [
          | inl done ↦ absurd (let h'' = rw done at h' in cc)
          | inr todo ↦ let h'' = rw todo at h' in (i, found, ground arith, ground arith)
        ]
  ]

  -- What a successful `reopen` did.
  reopen_ok :
      (key : Text) (c : LifecycleContext) (s s' : S) (t t' : T) (e : DomainEvent)
      → reopen repo timeline key c s t ≡ ok (e, s', t')
      → (i j : ExecutiveInsight) × (repo.find_by_key key s ≡ some i)
        × (repo.reopen i.id s ≡ some (j, s'))
  unfolding reopen
  reopen_ok key c s s' t t' e h = elim (Option-cases (repo.find_by_key key s)) [
    | inl missing ↦ absurd (let h' = rw missing at h in cc)
    | inr (i, found) ↦
        let h' = rw found at h in
        elim (Bool-cases (status_eq i.status Status.archived)) [
          | inr other ↦ absurd (let h'' = rw other at h' in cc)
          | inl closed ↦
              let h'' = rw closed at h' in
              elim (Option-cases (repo.reopen i.id s)) [
                | inl thrown' ↦ absurd (let h3 = rw thrown' at h'' in cc)
                | inr ((j, s''), reopened') ↦
                    let h3 = rw reopened' at h'' in
                    let same : s'' ≡ s' = ground arith in
                    (i, j, found, reopened' ∙ ap (λ x. some (j, x)) same)
              ]
        ]
  ]

abbrev version_of : Option ExecutiveInsight → Option ℕ
version_of none = none
version_of (some e) = some e.version

-- A change that leaves keys and versions alone leaves the version of every key.
version_of-get-change :
    (f : ExecutiveInsight → ExecutiveInsight)
    → ((e : ExecutiveInsight) → (f e).key ≡ e.key)
    → ((e : ExecutiveInsight) → (f e).version ≡ e.version)
    → (id k : Text) (s : Insights) → version_of (get k (change f id s)) ≡ version_of (get k s)
unfolding change get
version_of-get-change f same_key same_version id k [] = refl
version_of-get-change f same_key same_version id k (e ∷ s) = elim (Bool-cases (text_eq e.id id)) [
  | inl here ↦
      rw (here, same_key e)
        (elim (Bool-cases (text_eq e.key k)) [
          | inl found ↦ rw found (ap some (same_version e))
          | inr other ↦ rw other
        ])
  | inr later ↦ rw later (elim (Bool-cases (text_eq e.key k)) [
    | inl found ↦ rw found
    | inr other ↦ rw other (version_of-get-change f same_key same_version id k s)
  ])
]

reopen_change :
    (id : Text) (s s' : Insights) (j : ExecutiveInsight)
    → memory_repository.reopen id s ≡ some (j, s')
    → s' ≡ change mark_reopened id s
reopen_change id s s' j h = elim (Option-cases (with_id id s)) [
  | inl missing ↦ absurd (let h' = rw missing at h in cc)
  | inr (e, found) ↦ let h' = rw found at h in ground arith
]

-- Over the in-memory repository, if a key is archived, reopened and archived again, then the two
-- events of the archiving have the same id: neither step raises the version that the id is built
-- from.
pub archive_again :
    (key : Text) (c1 c2 c3 : LifecycleContext) (s s1 s2 s3 : Insights) (t t1 t2 t3 : Events)
    (e1 e2 e3 : DomainEvent)
    → archive memory_repository memory_timeline key c1 s t ≡ ok (e1, s1, t1)
    → reopen memory_repository memory_timeline key c2 s1 t1 ≡ ok (e2, s2, t2)
    → archive memory_repository memory_timeline key c3 s2 t2 ≡ ok (e3, s3, t3)
    → e3.id ≡ e1.id
archive_again key c1 c2 c3 s s1 s2 s3 t t1 t2 t3 e1 e2 e3 h1 h2 h3 =
    let (i, found, event, stored) =
      archive_ok memory_repository memory_timeline key c1 s s1 t t1 e1 h1 in
    let (j, j', found', changed) =
      reopen_ok memory_repository memory_timeline key c2 s1 s2 t1 t2 e2 h2 in
    let (i', found'', event', stored') =
      archive_ok memory_repository memory_timeline key c3 s2 s3 t2 t3 e3 h3 in
    let first = version_of-get-change mark_archived (λ e. refl) (λ e. refl) i.id key s in
    let second = version_of-get-change mark_reopened (λ e. refl) (λ e. refl) j.id key s1 in
    let v1 : version_of (get key s1) ≡ some i.version =
      ap (λ x. version_of (get key x)) stored ∙ first ∙ ap version_of found in
    let v2 : version_of (get key s2) ≡ some i.version =
      ap (λ x. version_of (get key x)) (reopen_change j.id s1 s2 j' changed) ∙ second ∙ v1 in
    let v3 : some i'.version ≡ some i.version = sym (ap version_of found'') ∙ v2 in
    let same : i'.version ≡ i.version = cc in
    ap (λ (e : DomainEvent). e.id) event'
    ∙ ap (λ v. (event_of key EventType.archived v c3).id) same
    ∙ sym (ap (λ (e : DomainEvent). e.id) event)

text_eq-ne : (a b : Text) → a ≢ b → text_eq a b ≡ false
text_eq-ne a b other = elim (Bool-cases (text_eq a b)) [
  | inl same ↦ absurd (other ((text_eq_iff a b).0 same))
  | inr done ↦ done
]

status_eq-ne : (st : Status) → st ≢ Status.archived → status_eq st Status.archived ≡ false
status_eq-ne st other = elim (Bool-cases (status_eq st Status.archived)) [
  | inl same ↦ absurd (other (archived_of st same))
  | inr done ↦ done
]

-- A change of one entry leaves what another key has.
get-change_ne :
    (f : ExecutiveInsight → ExecutiveInsight)
    → ((e : ExecutiveInsight) → (f e).key ≡ e.key)
    → (id k : Text) (s : Insights) (a : ExecutiveInsight) → with_id id s ≡ some a
    → text_eq a.key k ≡ false
    → get k (change f id s) ≡ get k s
unfolding change get
get-change_ne f same_key id k [] a h other = refl
get-change_ne f same_key id k (e ∷ s) a h other = elim (Bool-cases (text_eq e.id id)) [
  | inl here ↦
      let h' : some e ≡ some a = rw here at h in
      let same : e ≡ a = cc in
      let other' : text_eq e.key k ≡ false = rw same other in rw (here, same_key e, other') refl
  | inr later ↦
      let h' : with_id id s ≡ some a = rw later at h in
      rw (later, get-change_ne f same_key id k s a h' other) refl
]

with_id-change :
    (id : Text) (s : Insights) (a : ExecutiveInsight)
    → with_id id s ≡ some a
    → with_id id (change mark_archived id s) ≡ some (mark_archived a)
unfolding change
with_id-change id [] a h = absurd (cc)
with_id-change id (e ∷ s) a h = elim (Bool-cases (text_eq e.id id)) [
  | inl here ↦
      let h' : some e ≡ some a = rw here at h in let same : e ≡ a = cc in rw (here, here, same) refl
  | inr later ↦
      let h' : with_id id s ≡ some a = rw later at h in rw (later, later) (with_id-change id s a h')
]

-- Over the in-memory repository, if a key has an insight that is not archived, and the first insight
-- with its id is one of another key, then archiving the key gives the status archived to that other
-- insight and leaves the one of the key as it is, though the event names the key.
pub archive_shared_id :
    (key : Text) (a b : ExecutiveInsight) (s s' : Insights) (c : LifecycleContext) (t t' : Events)
    (e : DomainEvent)
    → get key s ≡ some b
    → with_id b.id s ≡ some a
    → a.key ≢ key
    → archive memory_repository memory_timeline key c s t ≡ ok (e, s', t')
    → (e.insight_key ≡ key) × (with_id b.id s' ≡ some (mark_archived a)) × (get key s' ≡ some b)
archive_shared_id key a b s s' c t t' e found first other_key h =
    let (i, found', event, stored) =
      archive_ok memory_repository memory_timeline key c s s' t t' e h in
    let both : some i ≡ some b = sym found' ∙ found in
    let same : i ≡ b = cc in
    let stored' : s' ≡ change mark_archived b.id s =
      stored ∙ ap (λ (x : ExecutiveInsight). change mark_archived x.id s) same in
    let other = text_eq-ne a.key key other_key in
    rw (stored', event)
      (
        refl,
        with_id-change b.id s a first,
        get-change_ne mark_archived (λ x. refl) b.id key s a first other ∙ found,
      )
