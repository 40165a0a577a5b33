-- ===== src/Insights/Builders.antt =====
-- The six builders: frontend/src/features/executive-insights/builders. Each turns the insights and the
-- recommendations of a module into executive insights. The numbers of the evidence come printed.
pub mod Ids
use royale_ai_platform.Prelude.{
  ℕ, zero, suc, ◌+◌, Bool, true, false, Option, none, some, List, [], ◌∷◌, ◌++◌, length, map,
  if◌then◌else◌,
}
use royale_ai_platform.Text.{Text, text, show}
use royale_ai_platform.Text.Split.{is_space}
use royale_ai_platform.Insights.Domain.{
  Status, Severity, Category, InsightEvidence, ExecutiveInsight,
}
use royale_ai_platform.Insights.Keys.{Unicode, build_insight_key}

pub record BuilderContext : Type 0 where
  pub ref_date : ℕ
  pub source_run_id : Text

pub record InsightData : Type 0 where
  pub fact : Text
  pub reason : Text
  pub impact : Text
  pub action : Text

pub record RecommendationData : Type 0 where
  pub action : Text
  pub reason : Text

-- The `type` of a sales insight.
pub data Tone : Type 0 where
  success warning danger info : Tone

pub record SalesInsight : Type 0 where
  pub type : Tone
  pub title : Text
  pub description : Text
  pub metric : Option Text

-- The fields of a sales recommendation that the builder reads.
pub record SalesRecommendation : Type 0 where
  pub title : Text
  pub description : Text
  pub impact : Text

pub record Input (I R : Type 0) : Type 0 where
  pub existing_insights : List I
  pub existing_recommendations : List R

-- What of the platform a builder calls.
pub record Printing : Type 0 where
  pub unicode : Unicode
  pub to_iso_string : ℕ → Text

abbrev pub tone_text : Tone → Text
tone_text success = text "success"
tone_text warning = text "warning"
tone_text danger = text "danger"
tone_text info = text "info"

-- `SEVERITY_MAP`
abbrev pub severity_map : Tone → Severity
severity_map success = Severity.positive
severity_map warning = Severity.warning
severity_map danger = Severity.critical
severity_map info = Severity.info

-- `.replace(/\s+/g, "-")`; the flag tells that the last code unit was replaced too.
unfoldable pub dash_spaces : Bool → Text → Text
dash_spaces in_run [] = []
dash_spaces in_run (c ∷ s) =
    let kept = c ∷ dash_spaces false s in
    let more = dash_spaces true s in
    if is_space c then (if in_run then more else 45 ∷ more) else kept

-- The two loops of `build`: the index runs on from the insights to the recommendations.
unfoldable pub build_from :
    {A : Type 0} → (ℕ → A → ExecutiveInsight) → ℕ → List A → List ExecutiveInsight
build_from make n [] = []
build_from make n (a ∷ rest) = make n a ∷ build_from make (suc n) rest

unfoldable pub build_both :
    {I R : Type 0}
    → (ℕ → I → ExecutiveInsight)
    → (ℕ → R → ExecutiveInsight)
    → List I
    → List R
    → List ExecutiveInsight
build_both make suggest is rs = build_from make 0 is ++ build_from suggest (length is) rs

-- `${module}-insight-${idx}`
abbrev pub build_id : Text → ℕ → Text
build_id module_name idx = module_name ++ text "-insight-" ++ show idx

module _ (p : Printing) (c : BuilderContext) where
  abbrev evidence_of : Text → Option Text → Option Text → Text → InsightEvidence
  evidence_of source metric value classification = record {
    source = source;
    metric = metric;
    value = value;
    previous_value = none;
    period = none;
    entity_id = none;
    classification = some classification;
    generated_at = some (p.to_iso_string c.ref_date);
  }

  -- The fields that all the literals share.
  abbrev draft :
      Text
      → Category
      → Severity
      → Text
      → Text
      → Text
      → Text
      → Text
      → Text
      → InsightEvidence
      → ExecutiveInsight
  draft module_name category severity id title summary fact impact recommendation evidence =
      record {
        key = build_insight_key p.unicode module_name title;
        id = id;
        module_name = module_name;
        category = category;
        severity = severity;
        status = Status.new;
        priority = 0;
        title = title;
        summary = summary;
        fact = fact;
        context = [];
        impact = impact;
        recommendation = recommendation;
        evidence = evidence;
        related_insights = [];
        metadata = [];
        version = 1;
        first_detected_at = c.ref_date;
        last_detected_at = c.ref_date;
        occurrence_count = 1;
        last_evaluation_run = c.source_run_id;
        created_at = c.ref_date;
        updated_at = c.ref_date;
        resolved_at = none;
        archived_at = none;
      }

  -- The literals of the financial, inventory, products, purchasing and marketplace builders.
  abbrev insight_of :
      Text → Category → Option Text → Option Text → (ℕ → Text) → ℕ → InsightData → ExecutiveInsight
  insight_of module_name category metric value id n src =
      draft module_name category Severity.info (id n) src.fact src.reason src.fact src.impact
        src.action (evidence_of module_name metric value (text "existing_insight"))

  abbrev recommendation_of :
      Text → Category → (ℕ → Text) → ℕ → RecommendationData → ExecutiveInsight
  recommendation_of module_name category id n src =
      draft module_name category Severity.info (id n) src.action src.reason src.action [] src.action
        (evidence_of module_name none none (text "existing_recommendation"))

  abbrev sales_insight : ℕ → SalesInsight → ExecutiveInsight
  sales_insight n src =
      draft (text "sales") Category.sales (severity_map src.type) (build_id (text "sales") n)
        src.title src.description src.description [] []
        (evidence_of (text "sales") src.metric none (tone_text src.type))

  abbrev sales_recommendation : ℕ → SalesRecommendation → ExecutiveInsight
  sales_recommendation n src =
      draft (text "sales") Category.sales Severity.info (build_id (text "sales") n) src.title
        src.description src.description src.impact src.title
        (evidence_of (text "sales") none none (text "existing_recommendation"))

  abbrev pub build_sales : Input SalesInsight SalesRecommendation → List ExecutiveInsight
  build_sales i =
      build_both sales_insight sales_recommendation i.existing_insights i.existing_recommendations

  abbrev build_module :
      Text
      → Category
      → Option Text
      → Option Text
      → (ℕ → Text)
      → Input InsightData RecommendationData
      → List ExecutiveInsight
  build_module module_name category metric value id i =
      build_both (insight_of module_name category metric value id)
        (recommendation_of module_name category id) i.existing_insights i.existing_recommendations

  -- `input.financial ? "health" : undefined`
  abbrev health_metric : Option Text → Option Text
  health_metric none = none
  health_metric (some health) = some (text "health")

  -- `health` is that of the data of the module, if there are data.
  abbrev pub build_financial :
      Option Text → Input InsightData RecommendationData → List ExecutiveInsight
  build_financial health i =
      build_module (text "financial") Category.financial (health_metric health) health
        (build_id (text "financial")) i

  abbrev pub build_inventory :
      Option Text → Input InsightData RecommendationData → List ExecutiveInsight
  build_inventory health i =
      build_module (text "inventory") Category.inventory (health_metric health) health
        (build_id (text "inventory")) i

  abbrev pub build_products : Text → Input InsightData RecommendationData → List ExecutiveInsight
  build_products total i =
      build_module (text "products") Category.products (some (text "catalog_products")) (some total)
        (build_id (text "products")) i

  abbrev pub build_purchasing : Text → Input InsightData RecommendationData → List ExecutiveInsight
  build_purchasing health i =
      build_module (text "purchasing") Category.purchasing (some (text "health")) (some health)
        (build_id (text "purchasing")) i

  -- `leaderName.replace(/\s+/g, "-").toLowerCase()`
  abbrev leader_slug : Text → Text
  leader_slug leader = p.unicode.to_lower_case (dash_spaces false leader)

  abbrev pub build_marketplace_id : Text → ℕ → Text
  build_marketplace_id leader idx =
      text "marketplace-insight-" ++ leader_slug leader ++ text "-" ++ show idx

  abbrev pub build_marketplace : Text → Input InsightData RecommendationData → List ExecutiveInsight
  build_marketplace leader i =
      build_module (text "marketplace") Category.marketplace none none (build_marketplace_id leader)
        i
