-- ===== src/Auth/Domain.antt =====
-- The data of the sign-in: frontend/src/auth/domain (types.ts, permissions.ts, role-permissions.ts).
-- The arrays that `role-permissions.ts` hands out are shared and nothing writes to them, so a list
-- is enough.
use mathlib.Core.List.{flatten}
use royale_ai_platform.Prelude.{ℕ, Option, List, [], ◌∷◌, map, Bool}
use royale_ai_platform.Text.{Text, text}

pub data Role : Type 0 where
  admin manager supervisor finance support viewer : Role

pub record User : Type 0 where
  pub id : Text
  pub login : Text
  pub name : Text
  pub role : Role

pub record Session : Type 0 where
  pub user_id : Text
  pub login : Text
  pub name : Text
  pub role : Role
  pub permissions : List Text
  pub expires_at : ℕ

pub record LoginResponse : Type 0 where
  pub success : Bool
  pub error : Option Text

pub record AuthUser : Type 0 where
  pub id : Text
  pub login : Text
  pub name : Text
  pub role : Role
  pub permissions : List Text

-- A member of the union of the string literals in `Permissions`.
pub data Permission : Type 0 where
  dashboard_view dashboard_edit marketplace_view marketplace_edit inventory_view : Permission
  inventory_edit financial_view financial_edit sales_view sales_edit products_view : Permission
  products_edit purchasing_view purchasing_edit reports_view reports_export ai_access : Permission
  copilot_access users_manage settings_manage : Permission

-- The string that the member is.
abbrev pub permission_text : Permission → Text
permission_text dashboard_view = text "dashboard.view"
permission_text dashboard_edit = text "dashboard.edit"
permission_text marketplace_view = text "marketplace.view"
permission_text marketplace_edit = text "marketplace.edit"
permission_text inventory_view = text "inventory.view"
permission_text inventory_edit = text "inventory.edit"
permission_text financial_view = text "financial.view"
permission_text financial_edit = text "financial.edit"
permission_text sales_view = text "sales.view"
permission_text sales_edit = text "sales.edit"
permission_text products_view = text "products.view"
permission_text products_edit = text "products.edit"
permission_text purchasing_view = text "purchasing.view"
permission_text purchasing_edit = text "purchasing.edit"
permission_text reports_view = text "reports.view"
permission_text reports_export = text "reports.export"
permission_text ai_access = text "ai.access"
permission_text copilot_access = text "copilot.access"
permission_text users_manage = text "users.manage"
permission_text settings_manage = text "settings.manage"

-- `Object.values(Permissions)`, each with its `Object.values`.
abbrev permissions : List (List Permission)
permissions =
    (dashboard_view ∷ dashboard_edit ∷ [])
    ∷ (marketplace_view ∷ marketplace_edit ∷ [])
    ∷ (inventory_view ∷ inventory_edit ∷ [])
    ∷ (financial_view ∷ financial_edit ∷ [])
    ∷ (sales_view ∷ sales_edit ∷ [])
    ∷ (products_view ∷ products_edit ∷ [])
    ∷ (purchasing_view ∷ purchasing_edit ∷ [])
    ∷ (reports_view ∷ reports_export ∷ [])
    ∷ (ai_access ∷ [])
    ∷ (copilot_access ∷ [])
    ∷ (users_manage ∷ [])
    ∷ (settings_manage ∷ [])
    ∷ []

-- `ROLE_PERMISSIONS`
unfoldable pub role_permissions : Role → List Permission
unfolding flatten
role_permissions admin = flatten permissions
role_permissions manager =
    dashboard_view ∷ dashboard_edit ∷ marketplace_view ∷ marketplace_edit ∷ inventory_view
    ∷ inventory_edit ∷ financial_view ∷ financial_edit ∷ sales_view ∷ sales_edit ∷ products_view
    ∷ products_edit ∷ purchasing_view ∷ purchasing_edit ∷ reports_view ∷ reports_export
    ∷ copilot_access ∷ []
role_permissions supervisor =
    dashboard_view ∷ marketplace_view ∷ inventory_view ∷ inventory_edit ∷ financial_view
    ∷ sales_view ∷ sales_edit ∷ products_view ∷ purchasing_view ∷ reports_view ∷ copilot_access ∷ []
role_permissions finance =
    dashboard_view ∷ financial_view ∷ financial_edit ∷ reports_view ∷ reports_export ∷ []
role_permissions support =
    dashboard_view ∷ marketplace_view ∷ sales_view ∷ inventory_view ∷ copilot_access ∷ []
role_permissions viewer =
    dashboard_view ∷ marketplace_view ∷ inventory_view ∷ financial_view ∷ sales_view ∷ products_view
    ∷ purchasing_view ∷ []

-- `?? []` never applies: every role has an entry.
unfoldable pub get_permissions_for_role : Role → List Text
unfolding role_permissions
get_permissions_for_role role = map permission_text (role_permissions role)
