-- ===== src/Insights/Transitions.antt =====
-- lifecycle/lifecycle-transitions.ts: what a detection, or its absence, makes of a status.
use royale_ai_platform.Prelude.{Bool, true, false, Option, none, some}
use royale_ai_platform.Insights.Domain.{Status}

pub data LifecycleTransition : Type 0 where
  created activated resolved updated ignored unchanged archived reopened : LifecycleTransition

pub record TransitionResult : Type 0 where
  pub transition : LifecycleTransition
  pub new_status : Status

abbrev pub result : LifecycleTransition → Status → TransitionResult
result t s = record { transition = t; new_status = s }

-- The tests of `computeTransition` in their order, the status and the detection matched at once.
unfoldable pub compute_transition : Option Status → Bool → TransitionResult
compute_transition none true = result created Status.new
compute_transition none false = result unchanged Status.new
compute_transition (some Status.archived) detected = result ignored Status.archived
compute_transition (some Status.active) false = result resolved Status.resolved
compute_transition (some Status.new) false = result unchanged Status.new
compute_transition (some Status.resolved) false = result unchanged Status.resolved
compute_transition (some Status.new) true = result activated Status.active
compute_transition (some Status.active) true = result updated Status.active
compute_transition (some Status.resolved) true = result activated Status.active
