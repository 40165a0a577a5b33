-- ===== src/Numbers/Falling.antt =====
-- The order by a falling number and, where it is the same, by another: the comparison of two sorts of
-- the features.
use royale_ai_platform.Prelude.{Bool, true, false, ◌≡◌, if◌then◌else◌, arith}
use royale_ai_platform.Numbers.{Numbers, AreOrdered}

module _ {N : Type 0} (num : Numbers N) where
  open num use {lt, eq}

  -- The item with the numbers s and p comes after that with t and q.
  abbrev pub falls_behind : N → N → N → N → Bool
  falls_behind s p t q = if eq t s then lt p q else lt s t

  module _ (laws : AreOrdered num) where
    pub falls_behind-asymmetric :
        (s p t q : N) → falls_behind s p t q ≡ true → falls_behind t q s p ≡ false
    falls_behind-asymmetric s p t q h = ground (
      arith,
      laws.eq-le t s,
      laws.eq-le s t,
      laws.lt-le p q,
      laws.lt-le q p,
      laws.lt-le s t,
      laws.lt-le t s,
      laws.le-total q p,
      laws.le-total t s,
    )

    pub falls_behind-transitive :
        (s p t q u r : N)
        → falls_behind s p t q ≡ false
        → falls_behind t q u r ≡ false
        → falls_behind s p u r ≡ false
    falls_behind-transitive s p t q u r h k = ground (
      arith,
      laws.eq-le t s,
      laws.eq-le u t,
      laws.eq-le u s,
      laws.lt-le p q,
      laws.lt-le q r,
      laws.lt-le p r,
      laws.lt-le s t,
      laws.lt-le t u,
      laws.lt-le s u,
      laws.le-trans u t s,
      laws.le-trans s u t,
      laws.le-trans t s u,
      laws.le-trans r q p,
    )
