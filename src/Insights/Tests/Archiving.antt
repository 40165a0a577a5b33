-- ===== src/Insights/Tests/Archiving.antt =====
-- Tests of `archive` and `reopen` over the in-memory stores.
use royale_ai_platform.Prelude.{true, false, some, [], ◌∷◌, ◌≡◌, refl, sym, ◌∙◌, ◌≢◌}
use royale_ai_platform.Text.{text, text_eq, text_eq_iff}
use royale_ai_platform.Insights.Domain.{Status, EventType, DomainEvent}
use royale_ai_platform.Insights.Lifecycle.{event_of}
use royale_ai_platform.Insights.Stores.Memory.{
  Insights, Events, get, change, with_id, mark_archived, memory_repository, memory_timeline,
}
use royale_ai_platform.Insights.Engine.{ok, thrown, insight_not_found, archive, reopen}
use royale_ai_platform.Insights.Engine.Archive.{archive_again, archive_shared_id}
use royale_ai_platform.Insights.Tests.{insight, run_one, stored}

abbrev no_events : Events
no_events = []

archive_missing :
    archive memory_repository memory_timeline (text "z") run_one stored []
    ≡ thrown (insight_not_found (text "z")) (stored, [])
unfolding archive get text_eq
archive_missing = refl

abbrev one : Status → Insights
one status = insight (text "b") (text "2") status ∷ []

abbrev event_b : EventType → DomainEvent
event_b type = event_of (text "b") type 1 run_one

first_archived :
    archive memory_repository memory_timeline (text "b") run_one (one Status.active) []
    ≡ ok (event_b EventType.archived, one Status.archived, event_b EventType.archived ∷ [])
unfolding archive get change text_eq
first_archived = refl

then_reopened :
    reopen memory_repository memory_timeline
      (text "b")
      run_one
      (one Status.archived)
      (event_b EventType.archived ∷ [])
    ≡ ok (
      event_b EventType.reopened,
      one Status.active,
      event_b EventType.archived ∷ event_b EventType.reopened ∷ [],
    )
unfolding reopen get change text_eq
then_reopened = refl

archived_anew :
    archive memory_repository memory_timeline
      (text "b")
      run_one
      (one Status.active)
      (event_b EventType.archived ∷ event_b EventType.reopened ∷ [])
    ≡ ok (
      event_b EventType.archived,
      one Status.archived,
      event_b EventType.archived ∷ event_b EventType.reopened ∷ event_b EventType.archived ∷ [],
    )
unfolding archive get change text_eq
archived_anew = refl

archive_again_example : (event_b EventType.archived).id ≡ (event_b EventType.archived).id
archive_again_example =
    archive_again (text "b") run_one run_one run_one _ _ _ _ _ _ _ _ _ _ _ first_archived
      then_reopened archived_anew

a_differs_lem : text_eq (text "a") (text "b") ≡ false
unfolding text_eq
a_differs_lem = refl

a_differs : text "a" ≢ text "b"
a_differs e =
    let same = (text_eq_iff (text "a") (text "b")).1 e in
    let no : false ≡ true = false_of same in cc
  where
    false_of : text_eq (text "a") (text "b") ≡ true → false ≡ true
    false_of h = sym a_differs_lem ∙ h

-- Of three insights the last two share an id.
abbrev sharing : Status → Insights
sharing status =
    insight (text "c") (text "0") Status.active
    ∷ insight (text "a") (text "1") status
    ∷ insight (text "b") (text "1") Status.active
    ∷ []

b_found :
    get (text "b") (sharing Status.active) ≡ some (insight (text "b") (text "1") Status.active)
unfolding get text_eq
b_found = refl

a_first :
    with_id (text "1") (sharing Status.active) ≡ some (insight (text "a") (text "1") Status.active)
unfolding text_eq
a_first = refl

b_archived :
    archive memory_repository memory_timeline (text "b") run_one (sharing Status.active) []
    ≡ ok (event_b EventType.archived, sharing Status.archived, event_b EventType.archived ∷ [])
unfolding archive get change text_eq
b_archived = refl

archive_shared_id_example :
    ((event_b EventType.archived).insight_key ≡ text "b")
    × (with_id (text "1") (sharing Status.archived)
        ≡ some (mark_archived (insight (text "a") (text "1") Status.active)))
    × (get (text "b") (sharing Status.archived)
        ≡ some (insight (text "b") (text "1") Status.active))
archive_shared_id_example =
    archive_shared_id (text "b") (insight (text "a") (text "1") Status.active)
      (insight (text "b") (text "1") Status.active) (sharing Status.active)
      (sharing Status.archived) run_one [] (event_b EventType.archived ∷ [])
      (event_b EventType.archived) b_found a_first a_differs b_archived
