-- ===== src/Text/Search.antt =====
-- `includes` on texts.
use mathlib.Core.Bool.{Bool, true, false, ◌&&◌, ◌||◌}
use mathlib.Core.List.{List, [], ◌∷◌}
use royale_ai_platform.Prelude.{◌==◌, is_empty}
use royale_ai_platform.Text.{Text}

unfoldable pub starts_with : Text → Text → Bool
starts_with [] t = true
starts_with (c ∷ s) [] = false
starts_with (c ∷ s) (d ∷ t) = c == d && starts_with s t

-- `t.includes(s)`
unfoldable pub includes : Text → Text → Bool
includes s [] = is_empty s
includes s (c ∷ t) = starts_with s (c ∷ t) || includes s t

unfoldable pub includes_any : List Text → Text → Bool
includes_any [] n = false
includes_any (mark ∷ marks) n = includes mark n || includes_any marks n
