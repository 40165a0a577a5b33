-- ===== src/Insights/Stores/Memory/Laws.antt =====
-- The stores of the tests keep the laws that the engine relies on.
use royale_ai_platform.Prelude.{
  Bool, true, false, some, List, [], ◌∷◌, ◌++◌, ◌≡◌, refl, ◌∙◌, arith, if◌then◌else◌, filter, All,
  Bool-cases, inl, inr, ◌||◌,
}
use royale_ai_platform.Text.{Text, text_eq, text_eq_iff, text_eq_refl}
use royale_ai_platform.Insights.Domain.{Status, ExecutiveInsight, DomainEvent, status_eq}
use royale_ai_platform.Insights.Stores.{IsRepository, IsTimeline, has_key}
use royale_ai_platform.Insights.Stores.Memory.{
  Insights, put, get, is_active, memory_repository, memory_timeline,
}

-- No key stands twice, as in any `Map`.
abbrev pub IsDistinct : Insights → Type 0
IsDistinct [] = Unit
IsDistinct (e ∷ s) = (has_key e.key s ≡ false) × IsDistinct s

has_key-put :
    (i : ExecutiveInsight) (k : Text) (s : Insights)
    → has_key k (put i s) ≡ (text_eq i.key k || has_key k s)
unfolding put
has_key-put i k [] = refl
has_key-put i k (e ∷ s) =
    ground
      (arith, text_eq_iff e.key i.key, text_eq_iff e.key k, text_eq_iff i.key k, has_key-put i k s)

put-IsDistinct : (i : ExecutiveInsight) (s : Insights) → IsDistinct s → IsDistinct (put i s)
unfolding put
put-IsDistinct i [] h = (refl, tt)
put-IsDistinct i (e ∷ s) (h, hs) = elim (Bool-cases (text_eq e.key i.key)) [
  | inl same ↦ rw same (rw ((text_eq_iff e.key i.key).0 same) at h, hs)
  | inr other ↦ rw other (
    has_key-put i e.key s ∙ ground (arith, text_eq_iff e.key i.key, text_eq_iff i.key e.key),
    put-IsDistinct i s hs,
  )
]

get-put :
    (i : ExecutiveInsight) (k : Text) (s : Insights)
    → get k (put i s) ≡ (if text_eq i.key k then some i else get k s)
unfolding put get
get-put i k [] = refl
get-put i k (e ∷ s) =
    ground (arith, text_eq_iff e.key i.key, text_eq_iff e.key k, text_eq_iff i.key k, get-put i k s)

get-key : (k : Text) (s : Insights) (i : ExecutiveInsight) → get k s ≡ some i → i.key ≡ k
unfolding get
get-key k [] i h = absurd (cc)
get-key k (e ∷ s) i h = elim (Bool-cases (text_eq e.key k)) [
  | inl same ↦
      let h' = rw same at h in let found : e ≡ i = cc in rw (← found) ((text_eq_iff e.key k).0 same)
  | inr other ↦ get-key k s i (rw other at h)
]

get-has_key :
    (k : Text) (s : Insights) (i : ExecutiveInsight) → get k s ≡ some i → has_key k s ≡ true
unfolding get
get-has_key k [] i h = absurd (cc)
get-has_key k (e ∷ s) i h = ground (arith, get-has_key k s i)

abbrev IsFoundActive : Insights → ExecutiveInsight → Type 0
IsFoundActive s a = (get a.key s ≡ some a) × (a.status ≡ Status.active)

found_later :
    (e : ExecutiveInsight) (s xs : Insights)
    → has_key e.key s ≡ false
    → All (IsFoundActive s) xs
    → All (IsFoundActive (e ∷ s)) xs
unfolding get
found_later e s [] h actives = tt
found_later e s (a ∷ xs) h ((found, st), rest) = elim (Bool-cases (text_eq e.key a.key)) [
  | inl same ↦
      let there = get-has_key a.key s a found in
      absurd (let h' = rw ((text_eq_iff e.key a.key).0 same) at h in cc)
  | inr other ↦ ((rw other found, st), found_later e s xs h rest)
]

active_status : (st : Status) → status_eq st Status.active ≡ true → st ≡ Status.active
active_status Status.active h = refl
active_status _ h = absurd (cc)

find_active_sound : (s : Insights) → IsDistinct s → All (IsFoundActive s) (filter is_active s)
find_active_sound [] d = tt
find_active_sound (e ∷ s) (d, ds) = elim (Bool-cases (is_active e)) [
  | inl on ↦ rw on (
    (unfold get in rw (text_eq_refl e.key), active_status e.status on),
    found_later e s (filter is_active s) d (find_active_sound s ds),
  )
  | inr off ↦ rw off (found_later e s (filter is_active s) d (find_active_sound s ds))
]

find_active_complete :
    (k : Text) (s : Insights) (i : ExecutiveInsight)
    → get k s ≡ some i
    → i.status ≡ Status.active
    → has_key k (filter is_active s) ≡ true
unfolding get
find_active_complete k [] i h st = absurd (cc)
find_active_complete k (e ∷ s) i h st = ground (arith, find_active_complete k s i)

-- The in-memory repository keeps the laws, in every state with distinct keys.
pub memory_repository-IsRepository : IsRepository IsDistinct memory_repository
memory_repository-IsRepository = record {
  save_valid = λ i s v. put-IsDistinct i s v;
  save_returns = λ i s. refl;
  find_by_key-save = λ i k s. get-put i k s;
  find_by_key-key = λ k s i h. get-key k s i h;
  find_active-sound = λ s v. find_active_sound s v;
  find_active-complete = λ k s i v h st. find_active_complete k s i h st;
}

filter-append :
    {A : Type 0} (p : A → Bool) (xs : List A) (x : A)
    → filter p (xs ++ x ∷ []) ≡ (if p x then filter p xs ++ x ∷ [] else filter p xs)
filter-append p [] x = refl
filter-append p (y ∷ xs) x = ground (arith, filter-append p xs x)

pub memory_timeline-IsTimeline : IsTimeline memory_timeline
memory_timeline-IsTimeline = record {
  find_all-append = λ e t. refl;
  find_by_key-append = λ e k t. filter-append (λ (x : DomainEvent). text_eq x.insight_key k) t e;
}
