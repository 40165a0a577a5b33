-- ===== src/Insights/Stores/Memory.antt =====
-- The stores of the tests: tests/in-memory-executive-insight-repository.ts and
-- in-memory-executive-insight-timeline.ts. The `Map` is keyed by the insight's own key, so it is the
-- list of its values in insertion order; `update`, which could change a key, is left out.
pub mod Laws
use royale_ai_platform.Prelude.{
  ℕ, Bool, true, false, Option, none, some, List, [], ◌∷◌, ◌++◌, if◌then◌else◌, filter, find,
}
use royale_ai_platform.Text.{Text, text_eq}
use royale_ai_platform.Insights.Domain.{Status, ExecutiveInsight, DomainEvent, status_eq}
use royale_ai_platform.Insights.Stores.{Repository, Timeline}

abbrev pub Insights : Type 0
Insights = List ExecutiveInsight

-- `store.set(insight.key, …)`
unfoldable pub put : ExecutiveInsight → Insights → Insights
put i [] = i ∷ []
put i (e ∷ s) = let rest = e ∷ put i s in if text_eq e.key i.key then i ∷ s else rest

unfoldable pub get : Text → Insights → Option ExecutiveInsight
get k [] = none
get k (e ∷ s) = let rest = get k s in if text_eq e.key k then some e else rest

-- The loops of `archive` and `reopen`: the first entry with the id is changed.
unfoldable pub change : (ExecutiveInsight → ExecutiveInsight) → Text → Insights → Insights
change f id [] = []
change f id (e ∷ s) = let rest = e ∷ change f id s in if text_eq e.id id then f e ∷ s else rest

abbrev pub mark_archived : ExecutiveInsight → ExecutiveInsight
mark_archived e = record e { status = Status.archived }

abbrev pub mark_reopened : ExecutiveInsight → ExecutiveInsight
mark_reopened e = record e { status = Status.active; resolved_at = none }

abbrev pub with_id : Text → Insights → Option ExecutiveInsight
with_id id s = find (λ (e : ExecutiveInsight). text_eq e.id id) s

abbrev reopen_entry :
    Text → Option ExecutiveInsight → Insights → Option (ExecutiveInsight × Insights)
reopen_entry id none s = none
reopen_entry id (some e) s = some (mark_reopened e, change mark_reopened id s)

abbrev pub is_active : ExecutiveInsight → Bool
is_active e = status_eq e.status Status.active

abbrev pub memory_repository : Repository Insights
memory_repository = record {
  save = λ i s. (i, put i s);
  find = with_id;
  find_by_key = get;
  find_by_module = λ m s. filter (λ (e : ExecutiveInsight). text_eq e.module_name m) s;
  find_active = λ s. filter is_active s;
  archive = λ id s. change mark_archived id s;
  reopen = λ id s. reopen_entry id (with_id id s) s;
  find_all = λ s. s;
  find_by_status = λ st s. filter (λ (e : ExecutiveInsight). status_eq e.status st) s;
}

abbrev pub Events : Type 0
Events = List DomainEvent

abbrev pub memory_timeline : Timeline Events
memory_timeline = record {
  append = λ e t. t ++ e ∷ [];
  find_by_key = λ k t. filter (λ (e : DomainEvent). text_eq e.insight_key k) t;
  find_all = λ t. t;
}
