-- ===== src/Insights/Queries.antt =====
-- The questions to a timeline: intelligence/executive-insight-timeline-queries.ts. The state of the
-- timeline is an argument, since nothing here writes it.
use royale_ai_platform.Prelude.{ℕ, Option, List, head_or_none, last_or_none, filter, length}
use royale_ai_platform.Text.{Text}
use royale_ai_platform.Insights.Domain.{EventType, event_type_eq, DomainEvent}
use royale_ai_platform.Insights.Stores.{Timeline}

-- `events.filter((e) => e.type === type).length`
abbrev pub count_type : List DomainEvent → EventType → ℕ
count_type es type = length (filter (λ (e : DomainEvent). event_type_eq e.type type) es)

module _ {T : Type 0} (timeline : Timeline T) where
  abbrev pub get_full_history : Text → T → List DomainEvent
  get_full_history key t = timeline.find_by_key key t

  abbrev pub find_first_event : Text → T → Option DomainEvent
  find_first_event key t = head_or_none (timeline.find_by_key key t)

  abbrev pub find_last_event : Text → T → Option DomainEvent
  find_last_event key t = last_or_none (timeline.find_by_key key t)

  abbrev pub count_by_type : Text → EventType → T → ℕ
  count_by_type key type t = count_type (timeline.find_by_key key t) type
