-- ===== src/Executive/Prioritization/Order.antt =====
-- In which order `prioritize` gives the insights, and that it leaves none out.
use royale_ai_platform.Prelude.{
  ℕ, suc, Bool, false, List, [], ◌∷◌, ◌≡◌, refl, arith, sort, sort-perm, sort-IsSorted, IsSorted,
  IsComparison, All, map,
}
use mathlib.Core.List.{Perm}
use mathlib.Core.List.Perm
use royale_ai_platform.Numbers.{Numbers, AreOrdered}
use royale_ai_platform.Numbers.Falling.{falls_behind-asymmetric, falls_behind-transitive}
use royale_ai_platform.Executive.{ExecutiveInsight, Platform}
use royale_ai_platform.Executive.Strategies.{Options}
use royale_ai_platform.Executive.Prioritization.{
  ExecutivePriority, Scored, comes_after, rank_from, score_one, prioritize,
}

module _ {N : Type 0} (num : Numbers N) where
  open num use {lt, le, eq}

  -- The ranks count up from the number.
  abbrev pub AreRanks : ℕ → List (ExecutivePriority N) → Type 0
  AreRanks n [] = Unit
  AreRanks n (p ∷ ps) = (p.rank ≡ n) × AreRanks (suc n) ps

  abbrev pub has_less_score : ExecutivePriority N → ExecutivePriority N → Bool
  has_less_score a b = lt a.priority_score b.priority_score

  module _ (laws : AreOrdered num) where
    comes_after-IsComparison : IsComparison (comes_after num)
    comes_after-IsComparison = record {
      asymmetric = λ a b h.
          falls_behind-asymmetric num laws a.combined_score a.insight.priority b.combined_score
            b.insight.priority h;
      transitive = λ a b c h k.
          falls_behind-transitive num laws a.combined_score a.insight.priority b.combined_score
            b.insight.priority c.combined_score c.insight.priority h k;
    }

    less_score-after :
        (a b : Scored N)
        → comes_after num a b ≡ false
        → lt a.combined_score b.combined_score ≡ false
    less_score-after a b h =
        let s = a.combined_score in
        let t = b.combined_score in ground (arith, laws.eq-le t s, laws.lt-le s t)

    rank_from-below :
        (options : Options) (s : Scored N) (n : ℕ) (l : List (Scored N))
        → All (λ t. comes_after num s t ≡ false) l
        → All (λ b. lt s.combined_score b.priority_score ≡ false) (rank_from num options n l)
    unfolding rank_from
    rank_from-below options s n [] h = tt
    rank_from-below options s n (t ∷ l) h =
        (less_score-after s t h.0, rank_from-below options s (suc n) l h.1)

    rank_from-IsSorted :
        (options : Options) (n : ℕ) (l : List (Scored N))
        → IsSorted (comes_after num) l
        → IsSorted has_less_score (rank_from num options n l)
    unfolding rank_from
    rank_from-IsSorted options n [] h = tt
    rank_from-IsSorted options n (s ∷ l) h =
        (rank_from-below options s (suc n) l h.0, rank_from-IsSorted options (suc n) l h.1)

  rank_from-ranks :
      (options : Options) (n : ℕ) (l : List (Scored N)) → AreRanks n (rank_from num options n l)
  unfolding rank_from
  rank_from-ranks options n [] = tt
  rank_from-ranks options n (s ∷ l) = (refl, rank_from-ranks options (suc n) l)

  rank_from-ids :
      (options : Options) (n : ℕ) (l : List (Scored N))
      → map (λ p. p.id) (rank_from num options n l) ≡ map (λ s. s.insight.id) l
  unfolding rank_from
  rank_from-ids options n [] = refl
  rank_from-ids options n (s ∷ l) = rw (rank_from-ids options (suc n) l) refl

  module _ (platform : Platform N) where
    score_one-ids :
        (options : Options) (all insights : List (ExecutiveInsight N))
        → map (λ s. s.insight.id) (map (score_one num platform options all) insights)
          ≡ map (λ i. i.id) insights
    unfolding score_one
    score_one-ids options all [] = refl
    score_one-ids options all (i ∷ insights) = rw (score_one-ids options all insights) refl

    -- What `prioritize` gives has the ids of the insights, each as often as it is there, with the
    -- ranks from one on; no insight has a higher score than one that stands before it.
    pub prioritize-IsSorted :
        (options : Options) (insights : List (ExecutiveInsight N))
        (out : List (ExecutivePriority N))
        → AreOrdered num
        → prioritize num platform options insights ≡ out
        → AreRanks 1 out
          × IsSorted has_less_score out
          × Perm (map (λ p. p.id) out) (map (λ i. i.id) insights)
    unfolding prioritize
    prioritize-IsSorted options insights out laws e =
        let scored = map (score_one num platform options insights) insights in
        let sorted = sort (comes_after num) scored in
        let ids : Perm (map (λ (s : Scored N). s.insight.id) sorted)
            (map (λ (s : Scored N). s.insight.id) scored) =
          Perm.map _ (sort-perm (comes_after num) scored) in
        rw (← e) (
          rank_from-ranks options 1 sorted,
          rank_from-IsSorted laws options 1 sorted
              (sort-IsSorted (comes_after num) (comes_after-IsComparison laws) scored),
          rw (rank_from-ids options 1 sorted, ← score_one-ids options insights insights) ids,
        )
