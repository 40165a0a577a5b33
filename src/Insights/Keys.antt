-- ===== src/Insights/Keys.antt =====
-- `buildInsightKey` of domain/insight-key.ts. `normalize("NFKD")` and `toLowerCase` are the platform's;
-- the regular expressions carry no `u` flag, so they read code units.
pub mod Slugs
use royale_ai_platform.Prelude.{
  ℕ, zero, suc, Bool, true, false, List, [], ◌∷◌, ◌++◌, ltb, leb, ◌==◌, ◌&&◌, ◌||◌, not, filter,
  is_empty, if◌then◌else◌,
}
use royale_ai_platform.Text.{Text, text}

pub record Unicode : Type 0 where
  pub normalize_nfkd : Text → Text
  pub to_lower_case : Text → Text

-- `[\u0300-\u036f]`
abbrev is_mark : ℕ → Bool
is_mark c = leb 768 c && leb c 879

-- `[a-z0-9]`
abbrev pub is_alphanumeric : ℕ → Bool
is_alphanumeric c = (leb 97 c && leb c 122) || (leb 48 c && leb c 57)

abbrev pub dash : ℕ
dash = 45

-- `.replace(/[^a-z0-9]+/g, "-")`; the flag tells that the last code unit was replaced too.
unfoldable pub dash_runs : Bool → Text → Text
dash_runs in_run [] = []
dash_runs in_run (c ∷ s) =
    let kept = c ∷ dash_runs false s in
    let more = dash_runs true s in
    if is_alphanumeric c then kept else (if in_run then more else dash ∷ more)

-- `^-+`
unfoldable pub trim_front : Text → Text
trim_front [] = []
trim_front (c ∷ s) = let rest = trim_front s in if c == dash then rest else c ∷ s

-- `-+$`
unfoldable pub trim_back : Text → Text
trim_back [] = []
trim_back (c ∷ s) = let rest = trim_back s in if c == dash && is_empty rest then [] else c ∷ rest

-- `.slice(0, n)`
unfoldable pub slice : ℕ → Text → Text
slice zero s = []
slice (suc n) [] = []
slice (suc n) (c ∷ s) = c ∷ slice n s

unfoldable pub slug : Unicode → Text → Text
slug u content =
    let stripped = filter (λ c. not (is_mark c)) (u.normalize_nfkd content) in
    slice 80 (trim_back (trim_front (dash_runs false (u.to_lower_case stripped))))

unfoldable pub build_insight_key : Unicode → Text → Text → Text
unfolding slug
build_insight_key u module_name content = module_name ++ text ":insight:" ++ slug u content
