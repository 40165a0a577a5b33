-- ===== src/Executive/Timeline/Order.antt =====
-- In which order the timeline shows its events.
use royale_ai_platform.Prelude.{
  ◌≤◌, true, false, List, ◌≡◌, arith, length, sort, take, sort-perm, sym, ◌∙◌, take_all,
  sort-length, sort-IsSorted, IsPairwise, IsSorted-IsPairwise, IsComparison,
}
use mathlib.Core.List.{Perm}
use royale_ai_platform.Text.{Text}
use royale_ai_platform.Numbers.{Numbers, AreOrdered}
use royale_ai_platform.Numbers.Falling.{falls_behind-asymmetric, falls_behind-transitive}
use royale_ai_platform.Executive.{Platform}
use royale_ai_platform.Executive.Timeline.{Snapshot, TimelineEvent}
use royale_ai_platform.Executive.Timeline.Names.{
  event_names, event_names_distinct, all_events-IsWithin, deduplicate_events-all, IsWithin-length,
}
use royale_ai_platform.Executive.Timeline.Merging.{
  deduplicate_events, is_after, all_events, compare_snapshots,
}

module _ {N : Type 0} (num : Numbers N) (laws : AreOrdered num) (platform : Platform N)
    (time_of : Text → N) where
  is_after-IsComparison : IsComparison (is_after num platform time_of)
  is_after-IsComparison = record {
    asymmetric = λ a b h.
        falls_behind-asymmetric num laws a.priority (time_of a.timestamp) b.priority
          (time_of b.timestamp) h;
    transitive = λ a b c h k.
        falls_behind-transitive num laws a.priority (time_of a.timestamp) b.priority
          (time_of b.timestamp) c.priority (time_of c.timestamp) h k;
  }

  -- The priority of the second is no higher.
  abbrev pub IsPriorTo : TimelineEvent N → TimelineEvent N → Type 0
  IsPriorTo a b = num.le b.priority a.priority ≡ true

  prior_to : (a b : TimelineEvent N) → is_after num platform time_of a b ≡ false → IsPriorTo a b
  prior_to a b h =
      ground (arith, laws.eq-le b.priority a.priority, laws.lt-le a.priority b.priority)

  -- If the numbers are ordered, then the timeline shows every event that the comparators give, once, and
  -- the priorities do not rise along it: neither the deduplication nor the cut at ten ever takes an event
  -- away.
  pub compare_snapshots-top :
      (previous current : Snapshot N) (top : List (TimelineEvent N))
      → (compare_snapshots num platform time_of previous current).events ≡ top
      → Perm top (all_events num platform previous current) × IsPairwise IsPriorTo top
  unfolding compare_snapshots
  compare_snapshots-top previous current top e =
      let given = all_events num platform previous current in
      let within = all_events-IsWithin num platform previous current in
      let kept : deduplicate_events num given ≡ given =
        deduplicate_events-all num event_names given event_names_distinct within in
      let few : length given ≤ 10 = IsWithin-length event_names given within in
      let sorted = sort (is_after num platform time_of) given in
      let perm : Perm sorted given = sort-perm (is_after num platform time_of) given in
      let shown : take 10 sorted ≡ top = rw kept at e in
      let same_length = sort-length (is_after num platform time_of) given in
      let all_shown : sorted ≡ top = sym (take_all 10 sorted (rw same_length few)) ∙ shown in
      (
        rw (← all_shown) perm,
        rw (← all_shown) (
            IsSorted-IsPairwise (is_after num platform time_of) IsPriorTo prior_to sorted
              (sort-IsSorted (is_after num platform time_of) is_after-IsComparison given)),
      )
