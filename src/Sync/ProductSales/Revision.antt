-- ===== src/Sync/ProductSales/Revision.antt =====
-- Which data the cache of product sales gives out after the data was invalidated.
use royale_ai_platform.Prelude.{
  ℕ, ◌+◌, Bool, true, Option, none, some, List, [], ◌∷◌, ◌≡◌, refl, ◌≢◌, inl, inr, arith,
  if◌then◌else◌, Bool-cases, ltb, ◌&&◌, not, ◌↔◌,
}
use royale_ai_platform.Text.{Text, text_eq, text_eq_iff, text_eq_refl, show}
use royale_ai_platform.Text.Table.{table_get, table_get-set}
use royale_ai_platform.Sync.ProductSales.{
  Period, period_text, same_revision, Cached, Sales, invalidate_product_sales, serve, begin_fetch,
  end_fetch,
}

pub same_revision_iff : (a b : Option Text) → (same_revision a b ≡ true) ↔ (a ≡ b)
unfolding same_revision
same_revision_iff none none = (λ _. refl, λ _. refl)
same_revision_iff none (some b) = (λ h. cc, λ h. cc)
same_revision_iff (some a) none = (λ h. cc, λ h. cc)
same_revision_iff (some a) (some b) = ground (arith, text_eq_iff a b)

-- The calls that finish one after another, each with its period, the revision that it read when it
-- began, the time and the data.
pub record Finish (D : Type 0) : Type 0 where
  pub period : Period
  pub revision : Option Text
  pub at : ℕ
  pub received : D

module _ {D : Type 0} where
  unfoldable pub finish_all : List (Finish D) → Sales D → Sales D
  finish_all [] s = s
  finish_all (f ∷ rest) s = finish_all rest (end_fetch f.period f.revision f.at f.received s)

  -- No call of the list began at the revision.
  abbrev pub AreOlder : Text → List (Finish D) → Type 0
  AreOlder t [] = Unit
  AreOlder t (f ∷ rest) = (f.revision ≢ some t) × AreOlder t rest

  -- Nothing in the cache has the stored revision.
  record IsStale (s : Sales D) (t : Text) : Type 0 where
    stored_lem : s.stored ≡ some t
    stale :
        (q : Period) (c : Cached D)
        → table_get (period_text q) s.cache ≡ some c
        → c.revision ≢ some t

  end_fetch-IsStale :
      (f : Finish D) (t : Text) (s : Sales D)
      → f.revision ≢ some t
      → IsStale s t
      → IsStale (end_fetch f.period f.revision f.at f.received s) t
  unfolding end_fetch
  end_fetch-IsStale f t s old h = record {
    stored_lem = h.stored_lem;
    stale = λ q c e.
        let e' = rw (table_get-set (period_text f.period) (period_text q) _ s.cache) at e in
        elim (Bool-cases (text_eq (period_text f.period) (period_text q))) [
          | inl same ↦
              let e'' = rw same at e' in
              let r : f.revision ≡ c.revision = ground arith in rw (← r) old
          | inr differs ↦ h.stale q c (rw differs at e')
        ];
  }

  finish_all-IsStale :
      (fs : List (Finish D)) (t : Text) (s : Sales D)
      → AreOlder t fs
      → IsStale s t
      → IsStale (finish_all fs s) t
  unfolding finish_all
  finish_all-IsStale [] t s old h = h
  finish_all-IsStale (f ∷ fs) t s (o, old) h =
      finish_all-IsStale fs t _ old (end_fetch-IsStale f t s o h)

  serve-stale :
      (force : Bool) (now : ℕ) (t : Text) (o : Option (Cached D))
      → ((c : Cached D) → o ≡ some c → c.revision ≢ some t)
      → serve force now (some t) o ≡ none
  serve-stale force now t none h = refl
  serve-stale force now t (some c) h =
      let differs = h c refl in ground (arith, same_revision_iff c.revision (some t))

  -- After `invalidateProductSales`, calls may still finish that read another revision when they
  -- began, and put their data into the cache: no call that begins after them is given any of it from
  -- the cache, so that each goes to the API, for every period.
  pub begin-invalidated :
      (t : ℕ) (fs : List (Finish D)) (s : Sales D) (p : Period) (force : Bool) (now : ℕ)
      → AreOlder (show t) fs
      → begin_fetch p force now (finish_all fs (invalidate_product_sales t s)) ≡ none
  unfolding begin_fetch invalidate_product_sales table_get
  begin-invalidated t fs s p force now old =
      let start : IsStale (invalidate_product_sales t s) (show t) = record {
        stored_lem = refl;
        stale = λ q c e. absurd (ground arith);
      } in
      let h = finish_all-IsStale fs (show t) (invalidate_product_sales t s) old start in
      rw h.stored_lem (serve-stale force now (show t) _ (h.stale p))

  -- What `fetchProductSales` gives out when a call for the period finishes: the data of that call
  -- exactly to the calls that are not forced, at the revision that it read, in less than a minute.
  pub begin-end_fetch :
      (p : Period) (r : Option Text) (at now : ℕ) (d : D) (force : Bool) (s : Sales D)
      → begin_fetch p force now (end_fetch p r at d s)
        ≡ (if not force && same_revision r s.stored && ltb now (60000 + at) then some d else none)
  unfolding begin_fetch end_fetch
  begin-end_fetch p r at now d force s =
      rw (table_get-set (period_text p) (period_text p) _ s.cache, text_eq_refl (period_text p))
        refl
