-- ===== src/Auth/Members/Laws.antt =====
-- Who may do what in an organization.
use moatazalasrai.Prelude.{
  ◌==◌, false, not, map, ℕ, ◌≡◌, ◌⊎◌, inl, inr, refl, sym, ap, ◌∙◌, Bool, true, ◌&&◌, ◌||◌, ◌++◌,
  Option, none, some, Bool-cases, Option-cases, subst, String, str_eq, find_row, select_rows, any,
}
use moatazalasrai.Api.{
  ok, err, api, need, guard-eq-ok, bind-eq-ok, Failure, organization_required, forbidden,
  organization_membership_required,
}
use moatazalasrai.Auth.Permissions.{
  Role, owner, admin, Permission, permission_text, all_permissions, has_permission, can,
}
use moatazalasrai.Auth.Permissions.Laws.{reserved, can-reserved}
use moatazalasrai.Auth.Members.{
  Member, CustomRole, RolePermission, MemberDb, is_member, is_active_member, join_rows, assigned_to,
  is_usable, is_allowed, is_deleted, role_texts, distinct, known, load_custom_permissions,
  user_organization_role, user_has_permission, assert_user_permission, Session, check_permission,
  require_session,
}
use moatazalasrai.Auth.Members.Joins.{
  any-append, any-select, any-ext, any-or, any-join, any-map, any-distinct, holds, any-known,
}

-- `deleted_at` is null.
abbrev kept : Option ℕ → Bool
kept none = true
kept (some t) = false

kept-is_deleted : (t : Option ℕ) → not (is_deleted t) ≡ kept t
kept-is_deleted none = refl
kept-is_deleted (some t) = refl

-- That a member has a permission beside the role, in the columns of the tables: the row of the member
-- lists it, or a role of that organization that is enabled and not deleted is assigned to the member
-- in that organization and has a row that allows it.
unfoldable pub granted_by : ℕ → String → MemberDb → Member → Bool
granted_by organization u db m =
    any (λ s. str_eq s u) m.custom_permissions
    || any
        (λ a.
          (a.member == m.id && a.organization == organization)
          && any
              (λ (r : CustomRole).
                (r.id == a.role && r.organization == organization && r.enabled && kept r.deleted_at)
                && any
                    (λ (p : RolePermission). (p.role == r.id && p.allowed) && str_eq p.permission u)
                    db.role_permissions)
              db.roles)
        db.assignments

unfoldable pub granted : ℕ → ℕ → Permission → MemberDb → Bool
unfolding granted_by
granted organization user p db =
    any
      (λ (m : Member).
        (m.organization == organization && m.user == user)
        && granted_by organization (permission_text p) db m)
      db.members

known_text : (p : Permission) → any (holds (permission_text p)) all_permissions ≡ true
unfolding all_permissions permission_text
known_text Permission.providers_read = refl
known_text _ = refl

role_texts-any :
    (organization : ℕ) (u : String) (db : MemberDb) (m : Member)
    → any (λ s. str_eq s u) (role_texts organization db m)
      ≡ any
          (λ a.
            (a.member == m.id && a.organization == organization)
            && any
                (λ (r : CustomRole).
                  (r.id == a.role
                    && r.organization == organization
                    && r.enabled
                    && kept r.deleted_at)
                  && any
                      (λ (p : RolePermission).
                        (p.role == r.id && p.allowed) && str_eq p.permission u)
                      db.role_permissions)
                db.roles)
          db.assignments
unfolding role_texts
role_texts-any organization u db m =
    any-join (λ s. str_eq s u) _ (select_rows (assigned_to organization m) db.assignments)
    ∙ any-select _ (assigned_to organization m) db.assignments
    ∙ any-ext _ _ db.assignments λ a.
      ap (λ b. assigned_to organization m a && b)
        (any-join (λ s. str_eq s u) _ (select_rows (is_usable organization a) db.roles)
          ∙ any-select _ (is_usable organization a) db.roles
          ∙ any-ext _ _ db.roles λ r.
            ap
              (λ b.
                (r.id == a.role && r.organization == organization && r.enabled && b)
                && any (λ s. str_eq s u)
                    (map (λ (p : RolePermission). p.permission)
                      (select_rows (is_allowed r) db.role_permissions)))
              (kept-is_deleted r.deleted_at)
            ∙ ap
                (λ b.
                  (r.id == a.role
                    && r.organization == organization
                    && r.enabled
                    && kept r.deleted_at)
                  && b)
                (any-map (λ s. str_eq s u) (λ (p : RolePermission). p.permission)
                    (select_rows (is_allowed r) db.role_permissions)
                  ∙ any-select _ (is_allowed r) db.role_permissions))

-- The custom permissions that are loaded for a user in an organization are exactly those that rows
-- of that organization grant to that user.
pub load_custom_permissions-granted :
    (organization user : ℕ) (p : Permission) (db : MemberDb)
    → has_permission (load_custom_permissions organization user db) p
      ≡ granted organization user p db
unfolding load_custom_permissions granted
load_custom_permissions-granted organization user p db =
    let u = permission_text p in
    let q = λ (s : String). str_eq s u in
    let members = select_rows (is_member organization user) db.members in
    let listed = join_rows (λ (m : Member). m.custom_permissions) members in
    let by_role = join_rows (role_texts organization db) members in
    any-join (holds u) (λ t. known t all_permissions) (distinct (listed ++ by_role))
    ∙ any-ext _ q (distinct (listed ++ by_role)) (λ t. any-known t u all_permissions (known_text p))
    ∙ any-distinct u (listed ++ by_role)
    ∙ any-append q listed by_role
    ∙ ap (λ b. b || any q by_role) (any-join q (λ (m : Member). m.custom_permissions) members)
    ∙ ap (λ b. any (λ (m : Member). any q m.custom_permissions) members || b)
        (any-join q (role_texts organization db) members)
    ∙ any-or _ (λ m. any q (role_texts organization db m)) members
    ∙ any-ext _ (granted_by organization u db) members
        (λ m. ap (λ b. any q m.custom_permissions || b) (role_texts-any organization u db m))
    ∙ any-select (granted_by organization u db) (is_member organization user) db.members

need-ok :
    {A : Type 0} (found : Option A) (failure : Failure) {row : A}
    → need found failure ≡ ok row
    → found ≡ some row
need-ok none failure h = cc
need-ok (some row) failure h = cc

outside : {role : Role} → err (api 403 organization_membership_required) ≡ ok role → ⊥
outside h = cc

passes :
    (organization user : ℕ) (p : Permission) (db : MemberDb) (role : Role)
    → (can (some role) p || has_permission (load_custom_permissions organization user db) p) ≡ true
    → (can (some role) p ≡ true) ⊎ (granted organization user p db ≡ true)
passes organization user p db role h = elim (Bool-cases (can (some role) p)) [
  | inl by_role ↦ inl by_role
  | inr not_by_role ↦
      inr (sym (load_custom_permissions-granted organization user p db) ∙ rw not_by_role at h)
]

-- A user who passes the check of a permission in an organization is a member of it whose membership
-- has not run out, the role that is answered is the member's, and the permission comes with that
-- role or is granted by rows of that organization.
pub assert_user_permission-ok :
    (organization user : ℕ) (p : Permission) (now : ℕ) (db : MemberDb) {role : Role}
    → assert_user_permission organization user p now db ≡ ok role
    → (m : Member) × (find_row (is_active_member organization user now) db.members ≡ some m)
      × (role ≡ m.role)
      × ((can (some role) p ≡ true) ⊎ (granted organization user p db ≡ true))
unfolding assert_user_permission user_has_permission user_organization_role
assert_user_permission-ok organization user p now db {role} h =
    elim (Option-cases (find_row (is_active_member organization user now) db.members)) [
      | inl missing ↦ absurd (outside (rw (missing, assert_user_permission) at h))
      | inr (m, found) ↦
          let (passed, answer) =
            guard-eq-ok
              (can (some m.role) p
                || has_permission (load_custom_permissions organization user db) p)
              (api 403 forbidden) (ok m.role) {a = role}
              (rw (found, assert_user_permission) at h) in
          let same : role ≡ m.role = cc answer in
          (m, found, same, rw same (passes organization user p db m.role passed))
    ]

-- A session that passes the check of a reserved permission is that of an owner or an administrator,
-- or a row of the organization of the session grants the permission to the user of the session. The
-- organization and the role that are answered are those of the session.
pub require_session-reserved :
    (s : Session) (p : Permission) (db : MemberDb) {organization : ℕ} {role : Role}
    → require_session (some s) (some p) db ≡ ok (organization, role)
    → has_permission reserved p ≡ true
    → (s.organization ≡ some organization)
      × (s.role ≡ some role)
      × (((role ≡ owner) ⊎ (role ≡ admin)) ⊎ (granted organization s.user p db ≡ true))
unfolding require_session
require_session-reserved s p db {organization} {role} h r =
    let (given, chosen, rest) =
      bind-eq-ok (need s.organization (api 409 organization_required)) _
        {last = (organization, role)} h in
    let (acts, as_role, checked) =
      bind-eq-ok (need s.role (api 409 organization_required)) _ {last = (organization, role)}
        rest in
    let (passed, answer) =
      guard-eq-ok (check_permission (some p) given s.user acts db) (api 403 forbidden)
        (ok (given, acts)) {a = (organization, role)} checked in
    let pair : (given, acts) ≡ (organization, role) = cc answer in
    let same : given ≡ organization = ap (λ (x : ℕ × Role). x.0) pair in
    let same_role : acts ≡ role = ap (λ (x : ℕ × Role). x.1) pair in
    (
      need-ok s.organization _ {row = given} chosen ∙ ap some same,
      need-ok s.role _ {row = acts} as_role ∙ ap some same_role,
      elim (passes organization s.user p db role (
          subst
            (λ o.
              (can (some role) p || has_permission (load_custom_permissions o s.user db) p) ≡ true)
            same
            (subst
              (λ a.
                (can (some a) p || has_permission (load_custom_permissions given s.user db) p)
                ≡ true)
              same_role passed))) [
                | inl by_role ↦ inl (can-reserved role p by_role r)
                | inr by_grant ↦ inr by_grant
              ],
    )
