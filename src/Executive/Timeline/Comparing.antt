-- ===== src/Executive/Timeline/Comparing.antt =====
-- What the comparators of frontend/src/features/executive-timeline/comparators share: each gives the
-- concatenation of what its tests push.
use royale_ai_platform.Prelude.{Bool, true, false, Option, none, some, List, [], ◌∷◌, if◌then◌else◌}
use royale_ai_platform.Text.{Text}
use royale_ai_platform.Numbers.{Numbers, whole}
use royale_ai_platform.Executive.Timeline.{Direction, improved, worsened, unchanged, TimelineEvent}

abbrev pub by_direction : Direction → Text → Text → Text
by_direction improved better worse = better
by_direction worsened better worse = worse
by_direction unchanged better worse = worse

abbrev pub is_worsened : Direction → Bool
is_worsened improved = false
is_worsened worsened = true
is_worsened unchanged = false

module _ {N : Type 0} (num : Numbers N) where
  open num use {add, sub, mul, div, lt, le, eq, show_number}

  abbrev pub abs : N → N
  abs n = if lt n (whole num 0) then sub (whole num 0) n else n

  -- `diff` of the comparator of the stock, where more is worse, and that of the marketplace.
  unfoldable pub more_is_worse : N → N → Direction × N
  more_is_worse value previous =
      let change = sub value previous in
      if lt (whole num 0) change
      then (worsened, change)
      else (if lt change (whole num 0) then (improved, abs change) else (improved, whole num 0))

  unfoldable pub more_is_better : N → N → Direction × N
  more_is_better value previous =
      let change = sub value previous in
      if lt (whole num 0) change
      then (improved, change)
      else (if lt change (whole num 0) then (worsened, change) else (improved, whole num 0))

  -- `if (change !== 0) events.push(event)`
  abbrev pub push_if_changed :
      Direction × N → (Direction → N → TimelineEvent N) → List (TimelineEvent N)
  push_if_changed d event = if eq d.1 (whole num 0) then [] else event d.0 d.1 ∷ []

  -- The test and the push where both readings may be missing.
  abbrev pub push_if_both :
      (N → N → Direction × N)
      → Option N
      → Option N
      → (N → N → Direction → N → TimelineEvent N)
      → List (TimelineEvent N)
  push_if_both diff none c event = []
  push_if_both diff (some p) none event = []
  push_if_both diff (some p) (some c) event = push_if_changed (diff c p) (event p c)
