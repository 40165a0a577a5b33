-- ===== src/Executive/Tests.antt =====
-- The executive insights at examples, in hundredths.
use royale_ai_platform.Prelude.{
  ℕ, true, none, some, List, [], ◌∷◌, ◌≡◌, refl, IsSorted, All, filter, map,
}
use mathlib.Core.List.{Perm}
use royale_ai_platform.Text.{Text, text, show}
use royale_ai_platform.Numbers.Hundredths.{hundredths, hundredths-AreOrdered}
use royale_ai_platform.Executive.{ExecutiveInsight, inventory, high, Platform}
use royale_ai_platform.Executive.Generating.{deduplicate}
use royale_ai_platform.Executive.Generating.Best.{has_key, to_list, best_from, filter-deduplicate}
use royale_ai_platform.Executive.Strategies.{Options}
use royale_ai_platform.Executive.Prioritization.{ExecutivePriority, prioritize}
use royale_ai_platform.Executive.Prioritization.Order.{
  AreRanks, has_less_score, prioritize-IsSorted,
}

abbrev plain : Platform ℕ
plain = record { to_lower_case = λ t. t; to_locale_string = show; now_text = text "2026-01-01" }

abbrev no_options : Options
no_options = record {
  complexity_overrides = λ id. none;
  blocked_by = λ id. none;
  related_insights = λ id. none;
}

abbrev insight_of : Text → ℕ → ExecutiveInsight ℕ
insight_of id priority = record {
  id = id;
  title = text "t";
  description = text "d";
  category = inventory;
  severity = high;
  priority = priority;
  affected_domains = [];
  recommended_action = text "comprar";
  estimated_impact = text "high";
  confidence = 50;
  reasons = [];
  created_at = text "2026-01-01";
}

abbrev two_insights : List (ExecutiveInsight ℕ)
two_insights = insight_of (text "a") 1000 ∷ insight_of (text "b") 9000 ∷ []

abbrev two_priorities : List (ExecutivePriority ℕ)
two_priorities = prioritize hundredths plain no_options two_insights

prioritize-IsSorted_example :
    AreRanks hundredths 1 two_priorities
    × IsSorted (has_less_score hundredths) two_priorities
    × Perm (map (λ p. p.id) two_priorities) (map (λ i. i.id) two_insights)
prioritize-IsSorted_example =
    prioritize-IsSorted hundredths plain no_options two_insights two_priorities
      hundredths-AreOrdered refl

filter-deduplicate_example :
    (filter (has_key (text "t|d")) (deduplicate hundredths two_insights)
      ≡ to_list (
          best_from hundredths hundredths-AreOrdered none
            (filter (has_key (text "t|d")) two_insights)))
    × ((i : ExecutiveInsight ℕ)
        → best_from hundredths hundredths-AreOrdered none
            (filter (has_key (text "t|d")) two_insights)
          ≡ some i
        → All
            (λ x. hundredths.le x.priority i.priority ≡ true)
            (filter (has_key (text "t|d")) two_insights))
filter-deduplicate_example =
    filter-deduplicate hundredths hundredths-AreOrdered (text "t|d") two_insights
