-- ===== src/Executive/Timeline/Unchanged.antt =====
-- What comparing two snapshots with the same readings comes to.
use royale_ai_platform.Prelude.{
  ℕ, true, false, Option, none, some, [], ◌≡◌, refl, ◌==◌, arith, length, sort-nil,
}
use royale_ai_platform.Text.{Text}
use royale_ai_platform.Numbers.{Numbers, AreOrdered, whole}
use royale_ai_platform.Executive.{Platform}
use royale_ai_platform.Executive.Timeline.{Direction, Snapshot, TimelineEvent, empty}
use royale_ai_platform.Executive.Timeline.Comparing.{
  more_is_worse, more_is_better, push_if_changed, push_if_both,
}
use royale_ai_platform.Executive.Timeline.MarketChanges.{compare_marketplace}
use royale_ai_platform.Executive.Timeline.StockChanges.{compare_inventory}
use royale_ai_platform.Executive.Timeline.InsightChanges.{
  compare_executive, critical_count, severity_score,
}
use royale_ai_platform.Executive.Timeline.Merging.{
  seen_loop, deduplicate_events, is_after, all_events, compare_snapshots,
}

module _ {N : Type 0} (num : Numbers N) (laws : AreOrdered num)
    (sub_self : (a : N) → num.sub a a ≡ whole num 0) where
  not_less : (a : N) → num.lt a a ≡ false
  not_less a = ground (arith, laws.lt-le a a, laws.le-refl a)

  equal : (a : N) → num.eq a a ≡ true
  equal a = ground (arith, laws.eq-le a a, laws.le-refl a)

  more_is_worse-same : (a : N) → (more_is_worse num a a).1 ≡ whole num 0
  unfolding more_is_worse
  more_is_worse-same a = rw (sub_self a, not_less (whole num 0)) refl

  more_is_better-same : (a : N) → (more_is_better num a a).1 ≡ whole num 0
  unfolding more_is_better
  more_is_better-same a = rw (sub_self a, not_less (whole num 0)) refl

  push_if_changed-none :
      (d : Direction × N) (event : Direction → N → TimelineEvent N)
      → d.1 ≡ whole num 0
      → push_if_changed num d event ≡ []
  push_if_changed-none d event e = rw (e, equal (whole num 0)) refl

  unchanged_better :
      (a : N) (event : Direction → N → TimelineEvent N)
      → push_if_changed num (more_is_better num a a) event ≡ []
  unchanged_better a event =
      push_if_changed-none (more_is_better num a a) event (more_is_better-same a)

  unchanged_worse :
      (a : N) (event : Direction → N → TimelineEvent N)
      → push_if_changed num (more_is_worse num a a) event ≡ []
  unchanged_worse a event =
      push_if_changed-none (more_is_worse num a a) event (more_is_worse-same a)

  push_if_both-none :
      (diff : N → N → Direction × N) (o : Option N)
      (event : N → N → Direction → N → TimelineEvent N)
      → ((a : N) → (diff a a).1 ≡ whole num 0)
      → push_if_both num diff o o event ≡ []
  push_if_both-none diff none event same = refl
  push_if_both-none diff (some a) event same = push_if_changed-none (diff a a) (event a a) (same a)

  compare_marketplace-same :
      (platform : Platform N) (s : Snapshot N) → compare_marketplace num platform s s ≡ []
  unfolding compare_marketplace
  compare_marketplace-same platform s =
      rw
        (
          unchanged_better s.market.average_health _,
          push_if_both-none (more_is_better num) s.market.highest_growth _ more_is_better-same,
          unchanged_better (whole num s.market.total_orders) _,
        )
        refl

  compare_inventory-same :
      (platform : Platform N) (s : Snapshot N) → compare_inventory num platform s s ≡ []
  unfolding compare_inventory
  compare_inventory-same platform s =
      rw
        (
          unchanged_worse (whole num s.stock.out_of_stock_count) _,
          unchanged_worse s.stock.idle_capital_value _,
          unchanged_worse (whole num s.stock.critical_replenishment_count) _,
          push_if_both-none (more_is_worse num) s.stock.average_coverage_days _ more_is_worse-same,
        )
        refl

  same_count : (n : ℕ) → (n == n) ≡ true
  same_count n = ground arith

  compare_executive-same : (s : Snapshot N) → compare_executive num s s ≡ []
  unfolding compare_executive
  compare_executive-same s =
      rw
        (
          same_count (length s.insights),
          same_count (critical_count s.insights),
          same_count (severity_score s.insights),
        )
        refl

  -- If the numbers are ordered and a number less itself is zero, then comparing a snapshot with itself gives no event, and the
  -- state is that of an empty timeline.
  pub compare_snapshots-same :
      (platform : Platform N) (time_of : Text → N) (s : Snapshot N)
      → compare_snapshots num platform time_of s s ≡ record { events = []; state = empty }
  unfolding compare_snapshots all_events deduplicate_events seen_loop
  compare_snapshots-same platform time_of s =
      rw
        (
          compare_marketplace-same platform s,
          compare_inventory-same platform s,
          compare_executive-same s,
          sort-nil (is_after num platform time_of),
        )
        refl
