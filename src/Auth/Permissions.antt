-- ===== src/Auth/Permissions.antt =====
-- What a role may see: frontend/src/auth/application/permission-service.ts and nav-filter.ts. An
-- absent `permission` is `none`; no member of `Permission` is an empty string, so `!item.permission`
-- holds of the absent ones alone.
pub mod Roles
use royale_ai_platform.Prelude.{
  Bool, true, false, Option, none, some, List, [], ◌∷◌, ◌||◌, any, filter, if◌then◌else◌,
}
use royale_ai_platform.Text.{Text, text, text_eq}
use royale_ai_platform.Auth.Domain.{Permission, permission_text}

-- `Array.prototype.includes` on strings
abbrev pub includes : List Text → Text → Bool
includes ps p = any (λ q. text_eq q p) ps

unfoldable pub has_permission : List Text → Permission → Bool
has_permission user_permissions permission = includes user_permissions (permission_text permission)

-- The one error that `requirePermission` throws, and a normal return.
pub data Access : Type 0 where
  granted : Access
  forbidden : Access

unfoldable pub require_permission : List Text → Permission → Access
unfolding has_permission
require_permission user_permissions permission =
    if has_permission user_permissions permission then granted else forbidden

pub record NavItemConfig : Type 0 where
  pub label : Text
  pub href : Text
  pub permission : Option Permission
  pub disabled : Option Bool

-- The test of the closure in `filterNavByPermission` and in `filterPermissions`.
abbrev pub admits : List Text → Option Permission → Bool
admits permissions none = true
admits permissions (some permission) = has_permission permissions permission

unfoldable pub filter_nav_by_permission : List NavItemConfig → List Text → List NavItemConfig
filter_nav_by_permission items permissions =
    filter (λ (item : NavItemConfig). admits permissions item.permission) items

unfoldable pub filter_permissions : List Text → List (Option Permission) → List (Option Permission)
filter_permissions user_permissions items = filter (admits user_permissions) items
