-- ===== src/Executive/Timeline/InsightChanges.antt =====
-- `compareExecutive` of
-- frontend/src/features/executive-timeline/comparators/executive-comparator.ts.
use royale_ai_platform.Prelude.{
  ℕ, ◌+◌, ◌-◌, ◌*◌, Bool, true, false, List, [], ◌∷◌, ◌++◌, ◌&&◌, not, ltb, leb, ◌==◌,
  if◌then◌else◌, length, filter,
}
use royale_ai_platform.Text.{Text, text, show}
use royale_ai_platform.Numbers.{Numbers, whole}
use royale_ai_platform.Executive.{ExecutiveInsight, Severity, critical, high, medium, low, info}
use royale_ai_platform.Executive.Plurals.{at_most}
use royale_ai_platform.Executive.Timeline.{
  Direction, improved, worsened, of_executive, Snapshot, TimelineEvent,
}
use royale_ai_platform.Executive.Timeline.Comparing.{by_direction}

abbrev pub is_critical : Severity → Bool
is_critical critical = true
is_critical high = false
is_critical medium = false
is_critical low = false
is_critical info = false

-- `sevOrder`
abbrev pub severity_order : Severity → ℕ
severity_order critical = 4
severity_order high = 3
severity_order medium = 2
severity_order low = 1
severity_order info = 0

-- `Math.abs(a - b)` of counts, and the direction of a count where less is better.
abbrev pub distance : ℕ → ℕ → ℕ
distance a b = if ltb a b then b - a else a - b

abbrev pub less_is_better : ℕ → ℕ → Direction
less_is_better now before = if ltb now before then improved else worsened

module _ {N : Type 0} where
  abbrev pub critical_count : List (ExecutiveInsight N) → ℕ
  critical_count insights = length (filter (λ i. is_critical i.severity) insights)

  unfoldable pub severity_score : List (ExecutiveInsight N) → ℕ
  severity_score [] = 0
  severity_score (i ∷ insights) = severity_order i.severity + severity_score insights

module _ {N : Type 0} (num : Numbers N) where
  abbrev pub count_event : Text → ℕ → ℕ → TimelineEvent N
  count_event created_at before now = record {
    id = text "tl-executive-insights";
    category = of_executive;
    title = text "Total de insights executivos";
    description = text "Insights passaram de " ++ show before ++ text " para " ++ show now;
    direction = less_is_better now before;
    severity = if leb 3 (distance now before) then high else medium;
    impact =
        by_direction (less_is_better now before) (text "Redução de alertas")
          (text "Aumento de alertas ativos");
    priority = whole num (at_most 100 (30 + distance now before * 8));
    timestamp = created_at;
  }

  abbrev pub criticals_event : Text → ℕ → ℕ → TimelineEvent N
  criticals_event created_at before now = record {
    id = text "tl-executive-critical";
    category = of_executive;
    title = text "Insights críticos";
    description = text "Insights críticos passaram de " ++ show before ++ text " para " ++ show now;
    direction = less_is_better now before;
    severity = critical;
    impact =
        by_direction (less_is_better now before) (text "Redução de prioridades críticas")
          (text "Aumento de situações críticas");
    priority = whole num (at_most 100 (60 + distance now before * 10));
    timestamp = created_at;
  }

  abbrev pub shift_event : Text → ℕ → ℕ → TimelineEvent N
  shift_event created_at before now = record {
    id = text "tl-executive-severity-shift";
    category = of_executive;
    title = text "Gravidade dos insights";
    description =
        text
          "A distribuição de severidade dos insights mudou, com predomínio de alertas mais críticos.";
    direction = less_is_better now before;
    severity = medium;
    impact =
        by_direction (less_is_better now before) (text "Redução de gravidade geral")
          (text "Agravamento do cenário");
    priority = whole num 35;
    timestamp = created_at;
  }

  unfoldable pub compare_executive : Snapshot N → Snapshot N → List (TimelineEvent N)
  compare_executive previous current =
      let before = length previous.insights in
      let now = length current.insights in
      let criticals_before = critical_count previous.insights in
      let criticals = critical_count current.insights in
      let score_before = severity_score previous.insights in
      let score = severity_score current.insights in
      (if now == before then [] else count_event current.created_at before now ∷ [])
      ++ (if criticals == criticals_before
          then []
          else criticals_event current.created_at criticals_before criticals ∷ [])
      ++ (if not (score == score_before) && (criticals == criticals_before) && (now == before)
          then shift_event current.created_at score_before score ∷ []
          else [])
