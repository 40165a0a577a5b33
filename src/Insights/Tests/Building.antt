-- ===== src/Insights/Tests/Building.antt =====
-- Tests of the keys and of the builders.
use royale_ai_platform.Prelude.{none, [], ◌∷◌, ◌≡◌, refl}
use royale_ai_platform.Text.{text, show}
use royale_ai_platform.Insights.Keys.{
  Unicode, slug, build_insight_key, dash_runs, trim_front, trim_back, slice,
}
use royale_ai_platform.Insights.Builders.{
  BuilderContext, InsightData, RecommendationData, SalesInsight, SalesRecommendation, Input,
  Printing, warning,
}

abbrev unicode : Unicode
unicode = record { normalize_nfkd = λ t. t; to_lower_case = λ t. t }

build_insight_key_sales :
    build_insight_key unicode (text "sales") (text "--queda de  vendas!")
    ≡ text "sales:insight:queda-de-vendas"
unfolding build_insight_key slug dash_runs trim_front trim_back slice
build_insight_key_sales = refl

abbrev printing : Printing
printing = record { unicode = unicode; to_iso_string = λ n. show n }

abbrev run_two : BuilderContext
run_two = record { ref_date = 5; source_run_id = text "r2" }

abbrev sales_input : Input SalesInsight SalesRecommendation
sales_input = record {
  existing_insights =
      record { type = warning; title = text "queda"; description = text "q"; metric = none } ∷ [];
  existing_recommendations =
      record { title = text "agir"; description = text "a"; impact = text "high" } ∷ [];
}

abbrev other_input : Input InsightData RecommendationData
other_input = record {
  existing_insights =
      record { fact = text "f"; reason = text "r"; impact = text "i"; action = text "a" } ∷ [];
  existing_recommendations = [];
}
