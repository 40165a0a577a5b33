-- ===== src/Auth/Permissions/Roles.antt =====
-- How the roles of role-permissions.ts compare, and what that makes of the navigation.
use royale_ai_platform.Prelude.{
  Bool, true, Option, none, some, List, [], ◌∷◌, ◌≡◌, refl, ◌↔◌, arith, all, filter, Bool-cases,
  inl, inr,
}
use royale_ai_platform.Text.{Text, text_eq, text_eq_iff}
use royale_ai_platform.Auth.Domain.{
  Role, admin, manager, supervisor, finance, support, viewer, Permission, permission_text,
  users_manage, settings_manage, ai_access, get_permissions_for_role,
}
use royale_ai_platform.Auth.Permissions.{
  includes, has_permission, admits, NavItemConfig, filter_nav_by_permission,
}

-- The order of the roles as the table has it: an edge from the weaker role to the stronger.
pub data Below : Role → Role → Type 0 where
  same : {r : Role} → Below r r
  manager_admin : {r : Role} → Below r manager → Below r admin
  supervisor_manager : {r : Role} → Below r supervisor → Below r manager
  finance_manager : {r : Role} → Below r finance → Below r manager
  support_supervisor : {r : Role} → Below r support → Below r supervisor
  viewer_supervisor : {r : Role} → Below r viewer → Below r supervisor

-- Every entry of the first list is in the second.
abbrev covers : List Text → List Text → Bool
covers ys xs = all (includes ys) xs

includes-covers :
    (xs ys : List Text) (p : Text)
    → covers ys xs ≡ true
    → includes xs p ≡ true
    → includes ys p ≡ true
includes-covers [] ys p c h = cc
includes-covers (x ∷ xs) ys p c h = elim (Bool-cases (text_eq x p)) [
  | inl e ↦ rw (← (text_eq_iff x p).0 e) (ground arith)
  | inr e ↦ includes-covers xs ys p (ground arith) (ground arith)
]

manager-admin : covers (get_permissions_for_role admin) (get_permissions_for_role manager) ≡ true
unfolding get_permissions_for_role text_eq
manager-admin = refl

supervisor-manager :
    covers (get_permissions_for_role manager) (get_permissions_for_role supervisor) ≡ true
unfolding get_permissions_for_role text_eq
supervisor-manager = refl

finance-manager :
    covers (get_permissions_for_role manager) (get_permissions_for_role finance) ≡ true
unfolding get_permissions_for_role text_eq
finance-manager = refl

support-supervisor :
    covers (get_permissions_for_role supervisor) (get_permissions_for_role support) ≡ true
unfolding get_permissions_for_role text_eq
support-supervisor = refl

viewer-supervisor :
    covers (get_permissions_for_role supervisor) (get_permissions_for_role viewer) ≡ true
unfolding get_permissions_for_role text_eq
viewer-supervisor = refl

module _ (p : Text) where
  abbrev Holds : Role → Type 0
  Holds r = includes (get_permissions_for_role r) p ≡ true

  includes_mono : {r s : Role} → Below r s → Holds r → Holds s
  includes_mono same h = h
  includes_mono (manager_admin b) h = includes-covers _ _ p manager-admin (includes_mono b h)
  includes_mono (supervisor_manager b) h =
      includes-covers _ _ p supervisor-manager (includes_mono b h)
  includes_mono (finance_manager b) h = includes-covers _ _ p finance-manager (includes_mono b h)
  includes_mono (support_supervisor b) h =
      includes-covers _ _ p support-supervisor (includes_mono b h)
  includes_mono (viewer_supervisor b) h =
      includes-covers _ _ p viewer-supervisor (includes_mono b h)

-- If role r stands below role s, every permission that r has, s has too.
pub has_permission_mono :
    {r s : Role} (p : Permission)
    → Below r s
    → has_permission (get_permissions_for_role r) p ≡ true
    → has_permission (get_permissions_for_role s) p ≡ true
unfolding has_permission
has_permission_mono p b h = includes_mono (permission_text p) b h

-- Of managing users, managing the settings and the AI access, each is held by the administrator and
-- by no other role.
pub admin_only :
    (r : Role)
    → ((has_permission (get_permissions_for_role r) users_manage ≡ true) ↔ (r ≡ admin))
      × ((has_permission (get_permissions_for_role r) settings_manage ≡ true) ↔ (r ≡ admin))
      × ((has_permission (get_permissions_for_role r) ai_access ≡ true) ↔ (r ≡ admin))
unfolding get_permissions_for_role has_permission text_eq
admin_only admin = ((λ _. refl, λ _. refl), (λ _. refl, λ _. refl), (λ _. refl, λ _. refl))
admin_only _ = ((λ h. cc, λ h. cc), (λ h. cc, λ h. cc), (λ h. cc, λ h. cc))

admits_mono :
    {r s : Role} (o : Option Permission)
    → Below r s
    → admits (get_permissions_for_role r) o ≡ true
    → admits (get_permissions_for_role s) o ≡ true
admits_mono none b h = refl
admits_mono (some p) b h = has_permission_mono p b h

filter-filter :
    {A : Type 0} (p q : A → Bool) (xs : List A)
    → ((x : A) → p x ≡ true → q x ≡ true)
    → filter p (filter q xs) ≡ filter p xs
filter-filter p q [] h = refl
filter-filter p q (x ∷ xs) h = ground (arith, h x, filter-filter p q xs h)

-- If role r stands below role s, what the navigation shows to r is what the same filter keeps of
-- the navigation that s sees: the same items in the same order, and none that s does not see.
pub filter_nav_by_permission_mono :
    {r s : Role} (items : List NavItemConfig)
    → Below r s
    → filter_nav_by_permission
        (filter_nav_by_permission items (get_permissions_for_role s))
        (get_permissions_for_role r)
      ≡ filter_nav_by_permission items (get_permissions_for_role r)
unfolding filter_nav_by_permission
filter_nav_by_permission_mono items b =
    filter-filter _ _ items (λ item. admits_mono item.permission b)
