-- ===== src/Executive/Timeline/Names.antt =====
-- Which events the comparators give: of each name at most one, so that the deduplication finds none.
use royale_ai_platform.Prelude.{
  ◌≤◌, Bool, true, false, Option, none, some, List, [], ◌∷◌, ◌++◌, ◌≡◌, refl, sym, ◌∙◌, append-nil,
  append_assoc, ◌⊎◌, inl, inr, ◌&&◌, not, arith, length, if◌then◌else◌, Bool-cases, ◌==◌,
}
use royale_ai_platform.Text.{Text, text, text_eq, text_eq_sym}
use royale_ai_platform.Text.Table.{Table, table_get, table_set, table_get-set}
use royale_ai_platform.Numbers.{Numbers, whole}
use royale_ai_platform.Executive.{Platform}
use royale_ai_platform.Executive.Timeline.{Direction, Snapshot, TimelineEvent}
use royale_ai_platform.Executive.Timeline.Comparing.{
  push_if_changed, push_if_both, more_is_better, more_is_worse,
}
use royale_ai_platform.Executive.Timeline.MarketChanges.{
  compare_marketplace, health_event, growth_event, orders_event,
}
use royale_ai_platform.Executive.Timeline.StockChanges.{
  compare_inventory, stockout_event, idle_event, critical_event, coverage_event,
}
use royale_ai_platform.Executive.Timeline.InsightChanges.{
  compare_executive, critical_count, severity_score, count_event, criticals_event, shift_event,
}
use royale_ai_platform.Executive.Timeline.Merging.{
  seen_values, seen_loop, deduplicate_events, all_events,
}

-- None of the names is the text, and no two of them are the same.
abbrev pub is_new : Text → List Text → Bool
is_new t [] = true
is_new t (name ∷ names) = not (text_eq name t) && is_new t names

abbrev pub are_distinct : List Text → Bool
are_distinct [] = true
are_distinct (name ∷ names) = is_new name names && are_distinct names

module _ {N : Type 0} where
  -- The events have some of the names, each at most once and in their order.
  unfoldable pub IsWithin : List Text → List (TimelineEvent N) → Type 0
  IsWithin [] events = events ≡ []
  IsWithin (name ∷ names) events =
      IsWithin names events
      ⊎ ((e : TimelineEvent N) × (rest : List (TimelineEvent N)) × (events ≡ e ∷ rest)
          × (e.id ≡ name)
          × IsWithin names rest)

  IsWithin-append :
      (ns ms : List Text) (xs ys : List (TimelineEvent N))
      → IsWithin ns xs
      → IsWithin ms ys
      → IsWithin (ns ++ ms) (xs ++ ys)
  unfolding IsWithin
  IsWithin-append [] ms xs ys h k = rw h k
  IsWithin-append (n ∷ ns) ms xs ys (inl h) k = inl (IsWithin-append ns ms xs ys h k)
  IsWithin-append (n ∷ ns) ms xs ys (inr (e, rest, is, name, h)) k =
      inr (e, rest ++ ys, rw is refl, name, IsWithin-append ns ms rest ys h k)

  pub IsWithin-length :
      (names : List Text) (xs : List (TimelineEvent N))
      → IsWithin names xs
      → length xs ≤ length names
  unfolding IsWithin
  IsWithin-length [] xs h = rw h (omega arith)
  IsWithin-length (n ∷ ns) xs (inl h) = omega (arith, IsWithin-length ns xs h)
  IsWithin-length (n ∷ ns) xs (inr (e, rest, is, name, h)) =
      rw is (omega (arith, IsWithin-length ns rest h))

  -- No event that was seen has one of the names.
  AreUnseen : Table (TimelineEvent N) → List Text → Type 0
  AreUnseen seen [] = Unit
  AreUnseen seen (name ∷ names) = (table_get name seen ≡ none) × AreUnseen seen names

  table_set-new :
      (t : Text) (e : TimelineEvent N) (seen : Table (TimelineEvent N))
      → table_get t seen ≡ none
      → seen_values (table_set t e seen) ≡ seen_values seen ++ e ∷ []
  unfolding table_get table_set
  table_set-new t e [] h = refl
  table_set-new t e ((k, v) ∷ seen) h = elim (Bool-cases (text_eq k t)) [
    | inl same ↦ absurd (let h' = rw same at h in cc)
    | inr other ↦ let h' = rw other at h in rw (other, table_set-new t e seen h') refl
  ]

  AreUnseen-set :
      (t : Text) (e : TimelineEvent N) (seen : Table (TimelineEvent N)) (names : List Text)
      → is_new t names ≡ true
      → AreUnseen seen names
      → AreUnseen (table_set t e seen) names
  unfolding AreUnseen
  AreUnseen-set t e seen [] new h = tt
  AreUnseen-set t e seen (n ∷ names) new (h, hs) =
      let other : text_eq n t ≡ false = ground arith in
      let other' : text_eq t n ≡ false = sym (text_eq_sym n t) ∙ other in
      (rw (table_get-set t n e seen, other') h, AreUnseen-set t e seen names (ground arith) hs)

module _ {N : Type 0} (num : Numbers N) where
  AreUnseen-nil : (names : List Text) → AreUnseen {N = N} [] names
  unfolding AreUnseen table_get
  AreUnseen-nil [] = tt
  AreUnseen-nil (n ∷ names) = (refl, AreUnseen-nil names)

  seen_loop-all :
      (names : List Text) (seen : Table (TimelineEvent N)) (xs : List (TimelineEvent N))
      → are_distinct names ≡ true
      → AreUnseen seen names
      → IsWithin names xs
      → seen_values (seen_loop num seen xs) ≡ seen_values seen ++ xs
  unfolding seen_loop AreUnseen IsWithin
  seen_loop-all [] seen xs d u h = rw h (sym (append-nil (seen_values seen)))
  seen_loop-all (n ∷ names) seen xs d (u, us) (inl h) =
      seen_loop-all names seen xs (ground arith) us h
  seen_loop-all (n ∷ names) seen xs d (u, us) (inr (e, rest, is, name, h)) =
      let free : table_get e.id seen ≡ none = rw name u in
      let new : is_new e.id names ≡ true = rw name (ground arith) in
      let unseen = AreUnseen-set e.id e seen names new us in
      let step = seen_loop-all names (table_set e.id e seen) rest (ground arith) unseen h in
      rw (is, free)
        (step
          ∙ (rw (table_set-new e.id e seen free) (append_assoc (seen_values seen) (e ∷ []) rest)))

  pub deduplicate_events-all :
      (names : List Text) (xs : List (TimelineEvent N))
      → are_distinct names ≡ true
      → IsWithin names xs
      → deduplicate_events num xs ≡ xs
  unfolding deduplicate_events
  deduplicate_events-all names xs d h = seen_loop-all names [] xs d (AreUnseen-nil names) h

  push_if_changed-IsWithin :
      (name : Text) (d : Direction × N) (event : Direction → N → TimelineEvent N)
      → (event d.0 d.1).id ≡ name
      → IsWithin (name ∷ []) (push_if_changed num d event)
  unfolding IsWithin
  push_if_changed-IsWithin name d event h = elim (Bool-cases (num.eq d.1 (whole num 0))) [
    | inl same ↦ rw same (inl refl)
    | inr changed ↦ rw changed (inr (event d.0 d.1, [], refl, h, refl))
  ]

  push_if_both-IsWithin :
      (name : Text) (diff : N → N → Direction × N) (o p : Option N)
      (event : N → N → Direction → N → TimelineEvent N)
      → ((a b : N) (d : Direction) (c : N) → (event a b d c).id ≡ name)
      → IsWithin (name ∷ []) (push_if_both num diff o p event)
  unfolding IsWithin
  push_if_both-IsWithin name diff none p event h = inl refl
  push_if_both-IsWithin name diff (some a) none event h = inl refl
  push_if_both-IsWithin name diff (some a) (some b) event h =
      push_if_changed-IsWithin name (diff b a) (event a b) (h a b _ _)

  if-IsWithin :
      (name : Text) (b : Bool) (e : TimelineEvent N)
      → e.id ≡ name
      → IsWithin (name ∷ []) (if b then [] else e ∷ [])
        × IsWithin (name ∷ []) (if b then e ∷ [] else [])
  unfolding IsWithin
  if-IsWithin name true e h = (inl refl, inr (e, [], refl, h, refl))
  if-IsWithin name false e h = (inr (e, [], refl, h, refl), inl refl)

-- The names of the events of the three comparators.
abbrev pub market_names : List Text
market_names =
    text "tl-marketplace-health" ∷ text "tl-marketplace-growth" ∷ text "tl-marketplace-orders" ∷ []

abbrev pub stock_names : List Text
stock_names =
    text "tl-inventory-stockout"
    ∷ text "tl-inventory-idle-capital"
    ∷ text "tl-inventory-critical"
    ∷ text "tl-inventory-coverage"
    ∷ []

abbrev pub insight_names : List Text
insight_names =
    text "tl-executive-insights"
    ∷ text "tl-executive-critical"
    ∷ text "tl-executive-severity-shift"
    ∷ []

abbrev pub event_names : List Text
event_names = market_names ++ stock_names ++ insight_names

pub event_names_distinct : are_distinct event_names ≡ true
unfolding text_eq
event_names_distinct = refl

module _ {N : Type 0} (num : Numbers N) (platform : Platform N) where
  market-IsWithin :
      (p c : Snapshot N) → IsWithin market_names (compare_marketplace num platform p c)
  unfolding compare_marketplace
  market-IsWithin p c =
      (IsWithin-append (text "tl-marketplace-health" ∷ text "tl-marketplace-growth" ∷ [])
        (text "tl-marketplace-orders" ∷ []) _ _
        (IsWithin-append (text "tl-marketplace-health" ∷ []) (text "tl-marketplace-growth" ∷ []) _ _
          (push_if_changed-IsWithin num (text "tl-marketplace-health")
            (more_is_better num c.market.average_health p.market.average_health)
            (health_event num platform p c) refl)
          (push_if_both-IsWithin num (text "tl-marketplace-growth") (more_is_better num)
            p.market.highest_growth c.market.highest_growth (growth_event num platform c.created_at)
            (λ a b d n. refl)))
        (push_if_changed-IsWithin num (text "tl-marketplace-orders")
          (more_is_better num (whole num c.market.total_orders) (whole num p.market.total_orders))
          (orders_event num platform p c) refl))

  stock-IsWithin : (p c : Snapshot N) → IsWithin stock_names (compare_inventory num platform p c)
  unfolding compare_inventory
  stock-IsWithin p c =
      (IsWithin-append
        (text "tl-inventory-stockout"
          ∷ text "tl-inventory-idle-capital"
          ∷ text "tl-inventory-critical"
          ∷ [])
        (text "tl-inventory-coverage" ∷ []) _ _
        (IsWithin-append (text "tl-inventory-stockout" ∷ text "tl-inventory-idle-capital" ∷ [])
          (text "tl-inventory-critical" ∷ []) _ _
          (IsWithin-append (text "tl-inventory-stockout" ∷ [])
            (text "tl-inventory-idle-capital" ∷ []) _ _
            (push_if_changed-IsWithin num (text "tl-inventory-stockout")
              (more_is_worse num (whole num c.stock.out_of_stock_count)
                (whole num p.stock.out_of_stock_count))
              (stockout_event num platform p c) refl)
            (push_if_changed-IsWithin num (text "tl-inventory-idle-capital")
              (more_is_worse num c.stock.idle_capital_value p.stock.idle_capital_value)
              (idle_event num platform p c) refl))
          (push_if_changed-IsWithin num (text "tl-inventory-critical")
            (more_is_worse num (whole num c.stock.critical_replenishment_count)
              (whole num p.stock.critical_replenishment_count))
            (critical_event num platform p c) refl))
        (push_if_both-IsWithin num (text "tl-inventory-coverage") (more_is_worse num)
          p.stock.average_coverage_days c.stock.average_coverage_days
          (coverage_event num platform c.created_at) (λ a b d n. refl)))

  insight-IsWithin : (p c : Snapshot N) → IsWithin insight_names (compare_executive num p c)
  unfolding compare_executive
  insight-IsWithin p c =
      let before = length p.insights in
      let now = length c.insights in
      let criticals_before = critical_count p.insights in
      let criticals = critical_count c.insights in
      let score_before = severity_score p.insights in
      let score = severity_score c.insights in
      (IsWithin-append (text "tl-executive-insights" ∷ text "tl-executive-critical" ∷ [])
        (text "tl-executive-severity-shift" ∷ []) _ _
        (IsWithin-append (text "tl-executive-insights" ∷ []) (text "tl-executive-critical" ∷ []) _ _
          (if-IsWithin num (text "tl-executive-insights") (now == before)
            (count_event num c.created_at before now) refl).0
          (if-IsWithin num (text "tl-executive-critical") (criticals == criticals_before)
            (criticals_event num c.created_at criticals_before criticals) refl).0)
        (if-IsWithin num (text "tl-executive-severity-shift")
          (not (score == score_before) && (criticals == criticals_before) && (now == before))
          (shift_event num c.created_at score_before score) refl).1)

  pub all_events-IsWithin : (p c : Snapshot N) → IsWithin event_names (all_events num platform p c)
  unfolding all_events
  all_events-IsWithin p c =
      IsWithin-append (market_names ++ stock_names) insight_names _ _
        (IsWithin-append market_names stock_names _ _ (market-IsWithin p c) (stock-IsWithin p c))
        (insight-IsWithin p c)
