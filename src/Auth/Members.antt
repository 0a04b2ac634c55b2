-- ===== src/Auth/Members.antt =====
-- The members of an organization and what each may do: lib/auth/membership-access.ts,
-- custom-permissions.ts, user-authorization.ts and authorization.ts. A time is a number of
-- milliseconds.
pub mod Joins
pub mod Laws
use moatazalasrai.Prelude.{
  ℕ, Bool, true, false, ◌&&◌, ◌||◌, not, List, [], ◌∷◌, ◌++◌, map, Option, none, some, ◌==◌, ltb,
  if◌then◌else◌, String, str_eq, find_row, select_rows, any,
}
use moatazalasrai.Api.{
  api, organization_membership_required, forbidden, unauthorized, organization_required, Response,
  ok, err, ◌>>=◌, ◌>>◌, guard, need,
}
use moatazalasrai.Auth.Permissions.{
  Role, Permission, permission_text, all_permissions, has_permission, can,
}

-- `organizationMembers`
pub record Member : Type 0 where
  pub id : ℕ
  pub organization : ℕ
  pub user : ℕ
  pub role : Role
  pub expires_at : Option ℕ
  pub custom_permissions : List String

-- `memberCustomRoles`
pub record Assignment : Type 0 where
  pub organization : ℕ
  pub member : ℕ
  pub role : ℕ

-- `customRoles`
pub record CustomRole : Type 0 where
  pub id : ℕ
  pub organization : ℕ
  pub enabled : Bool
  pub deleted_at : Option ℕ

-- `customRolePermissions`
pub record RolePermission : Type 0 where
  pub role : ℕ
  pub permission : String
  pub allowed : Bool

pub record MemberDb : Type 0 where
  pub members : List Member
  pub assignments : List Assignment
  pub roles : List CustomRole
  pub role_permissions : List RolePermission

-- `activeMembership`
abbrev pub is_active : ℕ → Option ℕ → Bool
is_active now none = true
is_active now (some expires) = ltb now expires

abbrev pub is_member : ℕ → ℕ → Member → Bool
is_member organization user m = m.organization == organization && m.user == user

abbrev pub is_active_member : ℕ → ℕ → ℕ → Member → Bool
is_active_member organization user now m =
    is_member organization user m && is_active now m.expires_at

module _ {ℓ κ} {A : Type ℓ} {B : Type κ} where
  -- The rows of a join, one row of the left after the other.
  unfoldable pub join_rows : (A → List B) → List A → List B
  join_rows f [] = []
  join_rows f (x ∷ xs) = f x ++ join_rows f xs

abbrev pub is_deleted : Option ℕ → Bool
is_deleted none = false
is_deleted (some t) = true

abbrev pub assigned_to : ℕ → Member → Assignment → Bool
assigned_to organization m a = a.member == m.id && a.organization == organization

abbrev pub is_usable : ℕ → Assignment → CustomRole → Bool
is_usable organization a r =
    r.id == a.role && r.organization == organization && r.enabled && not (is_deleted r.deleted_at)

abbrev pub is_allowed : CustomRole → RolePermission → Bool
is_allowed r p = p.role == r.id && p.allowed

-- The permissions that a member has by custom roles.
unfoldable pub role_texts : ℕ → MemberDb → Member → List String
unfolding join_rows
role_texts organization db m =
    join_rows
      (λ a.
        join_rows
          (λ (r : CustomRole).
            map (λ (p : RolePermission). p.permission)
              (select_rows (is_allowed r) db.role_permissions))
          (select_rows (is_usable organization a) db.roles))
      (select_rows (assigned_to organization m) db.assignments)

-- `SELECT DISTINCT`
unfoldable pub distinct : List String → List String
distinct [] = []
distinct (t ∷ ts) = t ∷ select_rows (λ s. not (str_eq s t)) (distinct ts)

-- The permission with a text, if there is one: others are left out.
unfoldable pub known : String → List Permission → List Permission
known t [] = []
known t (p ∷ ps) = if str_eq (permission_text p) t then p ∷ [] else known t ps

-- `loadCustomPermissions`
unfoldable pub load_custom_permissions : ℕ → ℕ → MemberDb → List Permission
unfolding join_rows distinct known role_texts all_permissions
load_custom_permissions organization user db =
    let members = select_rows (is_member organization user) db.members in
    join_rows (λ t. known t all_permissions)
      (distinct (
        join_rows (λ (m : Member). m.custom_permissions) members
        ++ join_rows (role_texts organization db) members))

-- `userOrganizationRole`
unfoldable pub user_organization_role : ℕ → ℕ → ℕ → MemberDb → Response Role
user_organization_role organization user now db = do
  m ←
      need (find_row (is_active_member organization user now) db.members)
        (api 403 organization_membership_required)
  ok m.role

-- `userHasPermission` and `assertUserPermission`
unfoldable pub user_has_permission : ℕ → ℕ → Permission → ℕ → MemberDb → Response (Bool × Role)
user_has_permission organization user permission now db = do
  role ← user_organization_role organization user now db
  ok (
    can (some role) permission
        || has_permission (load_custom_permissions organization user db) permission,
    role,
  )

unfoldable pub assert_user_permission : ℕ → ℕ → Permission → ℕ → MemberDb → Response Role
assert_user_permission organization user permission now db = do
  result ← user_has_permission organization user permission now db
  guard result.0 (api 403 forbidden)
  ok result.1

-- What `currentSession` gives.
pub record Session : Type 0 where
  pub user : ℕ
  pub organization : Option ℕ
  pub role : Option Role

abbrev pub check_permission : Option Permission → ℕ → ℕ → Role → MemberDb → Bool
check_permission none organization user role db = true
check_permission (some permission) organization user role db =
    can (some role) permission
    || has_permission (load_custom_permissions organization user db) permission

-- `requireSession`, with `assertSessionPermission` where a permission is asked for.
unfoldable pub require_session : Option Session → Option Permission → MemberDb → Response (ℕ × Role)
require_session session permission db = do
  s ← need session (api 401 unauthorized)
  organization ← need s.organization (api 409 organization_required)
  role ← need s.role (api 409 organization_required)
  guard (check_permission permission organization s.user role db) (api 403 forbidden)
  ok (organization, role)
