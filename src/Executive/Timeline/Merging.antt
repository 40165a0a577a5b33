-- ===== src/Executive/Timeline/Merging.antt =====
-- `compareSnapshots` of
-- frontend/src/features/executive-timeline/services/executive-timeline-service.ts. The comparators
-- push to one list; `time_of` is `new Date(…).getTime()` of a valid date.
use royale_ai_platform.Prelude.{
  Bool, true, Option, none, some, List, [], ◌∷◌, ◌++◌, if◌then◌else◌, sort, take,
}
use royale_ai_platform.Text.{Text}
use royale_ai_platform.Text.Table.{Table, table_get, table_set}
use royale_ai_platform.Numbers.{Numbers}
use royale_ai_platform.Executive.{Platform}
use royale_ai_platform.Executive.Timeline.{
  Snapshot, TimelineEvent, TimelineState, success, empty, TimelineResult,
}
use royale_ai_platform.Executive.Timeline.MarketChanges.{compare_marketplace}
use royale_ai_platform.Executive.Timeline.StockChanges.{compare_inventory}
use royale_ai_platform.Executive.Timeline.InsightChanges.{compare_executive}

module _ {N : Type 0} where
  abbrev pub seen_values : Table (TimelineEvent N) → List (TimelineEvent N)
  seen_values [] = []
  seen_values ((id, event) ∷ rest) = event ∷ seen_values rest

  abbrev pub state_of : List (TimelineEvent N) → TimelineState
  state_of [] = empty
  state_of (event ∷ events) = success

module _ {N : Type 0} (num : Numbers N) where
  open num use {lt, eq}

  -- `!existing || event.priority > existing.priority`
  abbrev pub is_higher : TimelineEvent N → Option (TimelineEvent N) → Bool
  is_higher event none = true
  is_higher event (some existing) = lt existing.priority event.priority

  unfoldable pub seen_loop :
      Table (TimelineEvent N) → List (TimelineEvent N) → Table (TimelineEvent N)
  seen_loop seen [] = seen
  seen_loop seen (event ∷ rest) =
      seen_loop
        (if is_higher event (table_get event.id seen) then table_set event.id event seen else seen)
        rest

  unfoldable pub deduplicate_events : List (TimelineEvent N) → List (TimelineEvent N)
  deduplicate_events events = seen_values (seen_loop [] events)

  module _ (platform : Platform N) where
    unfoldable pub all_events : Snapshot N → Snapshot N → List (TimelineEvent N)
    all_events previous current =
        compare_marketplace num platform previous current
        ++ compare_inventory num platform previous current
        ++ compare_executive num previous current

  module _ (platform : Platform N) (time_of : Text → N) where
    -- The comparison of the sort is positive.
    abbrev pub is_after : TimelineEvent N → TimelineEvent N → Bool
    is_after a b =
        if eq b.priority a.priority
        then lt (time_of a.timestamp) (time_of b.timestamp)
        else lt a.priority b.priority

    unfoldable pub compare_snapshots : Snapshot N → Snapshot N → TimelineResult N
    compare_snapshots previous current =
        let top =
          take 10 (sort is_after (deduplicate_events (all_events platform previous current))) in
        record { events = top; state = state_of top }
