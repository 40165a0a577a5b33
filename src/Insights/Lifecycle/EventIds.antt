-- ===== src/Insights/Lifecycle/EventIds.antt =====
-- What an event's id determines.
use royale_ai_platform.Prelude.{ℕ, [], ◌∷◌, ◌++◌, ◌≡◌, refl, sym, ◌∙◌, All, append_assoc, arith}
use royale_ai_platform.Text.{Text, show, show-injective, show-digits, IsDigit}
use royale_ai_platform.Insights.Domain.{EventType, event_type_text}
use royale_ai_platform.Insights.Lifecycle.{build_event_id, colon}
use royale_ai_platform.Text.Split.{Avoids}

not-Avoids-append : (xs ys : Text) → ¬ Avoids colon (xs ++ colon ∷ ys)
not-Avoids-append [] ys h = h.0 refl
not-Avoids-append (x ∷ xs) ys h = not-Avoids-append xs ys h.1

-- The last colon separates a text in one way.
last_colon :
    (xs ys a b : Text)
    → Avoids colon a
    → Avoids colon b
    → xs ++ colon ∷ a ≡ ys ++ colon ∷ b
    → (xs ≡ ys) × (a ≡ b)
last_colon [] [] a b h k e = (refl, cc)
last_colon [] (y ∷ ys) a b h k e =
    let same : a ≡ ys ++ colon ∷ b = cc in absurd (not-Avoids-append ys b (rw same at h))
last_colon (x ∷ xs) [] a b h k e =
    let same : xs ++ colon ∷ a ≡ b = cc in absurd (not-Avoids-append xs a (rw (← same) at k))
last_colon (x ∷ xs) (y ∷ ys) a b h k e =
    let (rest, same) = last_colon xs ys a b h k (cc) in (cc, same)

show-Avoids : (s : Text) → All IsDigit s → Avoids colon s
show-Avoids [] h = tt
show-Avoids (c ∷ s) h = (λ e. omega arith, show-Avoids s h.1)

type-Avoids : (t : EventType) → Avoids colon (event_type_text t)
type-Avoids EventType.created = omega arith
type-Avoids EventType.activated = omega arith
type-Avoids EventType.updated = omega arith
type-Avoids EventType.resolved = omega arith
type-Avoids EventType.archived = omega arith
type-Avoids EventType.reopened = omega arith

event_type_text-injective : (t u : EventType) → event_type_text t ≡ event_type_text u → t ≡ u
event_type_text-injective EventType.created EventType.created e = refl
event_type_text-injective EventType.activated EventType.activated e = refl
event_type_text-injective EventType.updated EventType.updated e = refl
event_type_text-injective EventType.resolved EventType.resolved e = refl
event_type_text-injective EventType.archived EventType.archived e = refl
event_type_text-injective EventType.reopened EventType.reopened e = refl
event_type_text-injective _ _ e = absurd (ground arith)

-- Two events have one id only if they have the same insight key, type and version, whatever colons
-- the keys hold.
pub build_event_id-injective :
    (k l : Text) (t u : EventType) (m n : ℕ)
    → build_event_id k t m ≡ build_event_id l u n
    → (k ≡ l) × (t ≡ u) × (m ≡ n)
unfolding build_event_id
build_event_id-injective k l t u m n e =
    let e' =
      append_assoc k (colon ∷ event_type_text t) (colon ∷ show m)
      ∙ e
      ∙ sym (append_assoc l (colon ∷ event_type_text u) (colon ∷ show n)) in
    let (front, version) =
      last_colon (k ++ colon ∷ event_type_text t) (l ++ colon ∷ event_type_text u) (show m) (show n)
        (show-Avoids _ (show-digits m)) (show-Avoids _ (show-digits n)) e' in
    let (key, type) =
      last_colon k l (event_type_text t) (event_type_text u) (type-Avoids t) (type-Avoids u)
        front in
    (key, event_type_text-injective t u type, show-injective m n version)
