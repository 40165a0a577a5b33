-- ===== src/Executive/Plurals.antt =====
-- The bounds of counts and the endings of words that the rules share.
use royale_ai_platform.Prelude.{ℕ, [], ◌==◌, ltb, if◌then◌else◌}
use royale_ai_platform.Text.{Text, text}

-- `Math.min` of counts
abbrev pub at_most : ℕ → ℕ → ℕ
at_most bound n = if ltb bound n then bound else n

-- "s" where the count is greater than one, and where it is not one.
abbrev pub plural_s : ℕ → Text
plural_s n = if ltb 1 n then text "s" else []

abbrev pub other_s : ℕ → Text
other_s n = if n == 1 then [] else text "s"
