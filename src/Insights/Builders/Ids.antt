-- ===== src/Insights/Builders/Ids.antt =====
-- The ids that the builders give.
use royale_ai_platform.Prelude.{
  ℕ, zero, suc, ◌+◌, Option, List, [], ◌∷◌, ◌++◌, ◌≡◌, refl, ap, ◌∙◌, arith, length, map,
}
use royale_ai_platform.Text.{Text, text}
use royale_ai_platform.Insights.Domain.{ExecutiveInsight}
use royale_ai_platform.Insights.Builders.{
  BuilderContext, InsightData, RecommendationData, SalesInsight, SalesRecommendation, Input,
  Printing, build_from, build_both, build_id, build_sales, build_financial, build_inventory,
  build_products, build_purchasing, build_marketplace_id, build_marketplace,
}

-- The ids of `k` positions from `n` on.
abbrev pub positions : (ℕ → Text) → ℕ → ℕ → List Text
positions id n zero = []
positions id n (suc k) = id n ∷ positions id (suc n) k

abbrev pub ids_of : List ExecutiveInsight → List Text
ids_of is = map (λ (i : ExecutiveInsight). i.id) is

-- How many insights and recommendations go in.
abbrev pub size : {I R : Type 0} → Input I R → ℕ
size i = length i.existing_insights + length i.existing_recommendations

ids_of-build_from :
    {A : Type 0} (make : ℕ → A → ExecutiveInsight) (id : ℕ → Text)
    → ((n : ℕ) (a : A) → (make n a).id ≡ id n)
    → (n : ℕ) (xs : List A) → ids_of (build_from make n xs) ≡ positions id n (length xs)
unfolding build_from
ids_of-build_from make id h n [] = refl
ids_of-build_from make id h n (x ∷ xs) = rw (h n x, ids_of-build_from make id h (suc n) xs)

ids_of-append : (xs ys : List ExecutiveInsight) → ids_of (xs ++ ys) ≡ ids_of xs ++ ids_of ys
ids_of-append [] ys = refl
ids_of-append (x ∷ xs) ys = ap (λ r. x.id ∷ r) (ids_of-append xs ys)

positions-append :
    (id : ℕ → Text) (n j k : ℕ)
    → positions id n j ++ positions id (n + j) k ≡ positions id n (j + k)
positions-append id n zero k =
    let here : n + 0 ≡ n = omega arith in let all : 0 + k ≡ k = omega arith in rw (here, all)
positions-append id n (suc j) k =
    let here : n + suc j ≡ suc n + j = omega arith in
    let all : suc j + k ≡ suc (j + k) = omega arith in
    rw (here, all) (ap (λ r. id n ∷ r) (positions-append id (suc n) j k))

ids_of-build_both :
    {I R : Type 0} (make : ℕ → I → ExecutiveInsight) (suggest : ℕ → R → ExecutiveInsight)
    (id : ℕ → Text)
    → ((n : ℕ) (a : I) → (make n a).id ≡ id n)
    → ((n : ℕ) (a : R) → (suggest n a).id ≡ id n)
    → (is : List I) (rs : List R)
    → ids_of (build_both make suggest is rs) ≡ positions id 0 (length is + length rs)
unfolding build_both
ids_of-build_both make suggest id h g is rs =
    let start : 0 + length is ≡ length is = omega arith in
    ids_of-append (build_from make 0 is) (build_from suggest (length is) rs)
    ∙ rw (ids_of-build_from make id h 0 is, ids_of-build_from suggest id g (length is) rs)
        (rw start at (positions-append id 0 (length is) (length rs)))

-- Whatever the insights and the recommendations say, the ids of what each of the six builders makes
-- are its prefix with the positions from zero on, as many as there are insights and
-- recommendations.
pub build_ids :
    (p : Printing) (c : BuilderContext) (sales : Input SalesInsight SalesRecommendation)
    (i : Input InsightData RecommendationData) (health : Option Text) (t leader : Text)
    → (ids_of (build_sales p c sales) ≡ positions (build_id (text "sales")) 0 (size sales))
      × (ids_of (build_financial p c health i) ≡ positions (build_id (text "financial")) 0 (size i))
      × (ids_of (build_inventory p c health i) ≡ positions (build_id (text "inventory")) 0 (size i))
      × (ids_of (build_products p c t i) ≡ positions (build_id (text "products")) 0 (size i))
      × (ids_of (build_purchasing p c t i) ≡ positions (build_id (text "purchasing")) 0 (size i))
      × (ids_of (build_marketplace p c leader i)
          ≡ positions (build_marketplace_id p c leader) 0 (size i))
build_ids p c sales i health t leader = (
  ids_of-build_both _ _ (build_id (text "sales")) (λ n a. refl) (λ n a. refl) _ _,
  ids_of-build_both _ _ (build_id (text "financial")) (λ n a. refl) (λ n a. refl) _ _,
  ids_of-build_both _ _ (build_id (text "inventory")) (λ n a. refl) (λ n a. refl) _ _,
  ids_of-build_both _ _ (build_id (text "products")) (λ n a. refl) (λ n a. refl) _ _,
  ids_of-build_both _ _ (build_id (text "purchasing")) (λ n a. refl) (λ n a. refl) _ _,
  ids_of-build_both _ _ (build_marketplace_id p c leader) (λ n a. refl) (λ n a. refl) _ _,
)
