-- ===== src/Auth/Tests/Roles.antt =====
-- Permissions and members at concrete inputs.
use moatazalasrai.Prelude.{◌≡◌, ◌⊎◌, refl, true, [], ◌∷◌, some, none, find_row, select_rows}
use moatazalasrai.Api.{ok}
use moatazalasrai.Auth.Permissions.{
  owner, admin, operator, Permission, permission_text, has_permission, can,
}
use moatazalasrai.Auth.Permissions.Laws.{reserved}
use moatazalasrai.Auth.Members.{
  Member, MemberDb, Session, load_custom_permissions, user_organization_role, user_has_permission,
  assert_user_permission, require_session, is_active_member,
}
use moatazalasrai.Auth.Members.Laws.{
  granted, load_custom_permissions-granted, assert_user_permission-ok, require_session-reserved,
}

-- An operator of organization 1 with a custom role that allows reading the audit log.
abbrev db : MemberDb
db = record {
  members =
      record {
        id = 10;
        organization = 1;
        user = 7;
        role = operator;
        expires_at = some 500;
        custom_permissions = "files:manage" ∷ [];
      }
      ∷ [];
  assignments = record { organization = 1; member = 10; role = 30 } ∷ [];
  roles = record { id = 30; organization = 1; enabled = true; deleted_at = none } ∷ [];
  role_permissions =
      record { role = 30; permission = "audit:read"; allowed = true }
      ∷ record { role = 30; permission = "no:such"; allowed = true }
      ∷ [];
}

load_custom_permissions-granted_example :
    has_permission (load_custom_permissions 1 7 db) Permission.audit_read
    ≡ granted 1 7 Permission.audit_read db
load_custom_permissions-granted_example =
    load_custom_permissions-granted 1 7 Permission.audit_read db

audits : assert_user_permission 1 7 Permission.audit_read 100 db ≡ ok operator
unfolding assert_user_permission user_has_permission user_organization_role load_custom_permissions
    find_row select_rows can permission_text
audits = refl

assert_user_permission-ok_example :
    (m : Member) × (find_row (is_active_member 1 7 100) db.members ≡ some m)
    × (operator ≡ m.role)
    × ((can (some operator) Permission.audit_read ≡ true)
        ⊎ (granted 1 7 Permission.audit_read db ≡ true))
assert_user_permission-ok_example =
    assert_user_permission-ok 1 7 Permission.audit_read 100 db {role = operator} audits

abbrev session : Session
session = record { user = 7; organization = some 1; role = some operator }

passes_check : require_session (some session) (some Permission.audit_read) db ≡ ok (1, operator)
unfolding require_session load_custom_permissions find_row select_rows can permission_text
passes_check = refl

audit_reserved : has_permission reserved Permission.audit_read ≡ true
unfolding reserved permission_text
audit_reserved = refl

require_session-reserved_example :
    (session.organization ≡ some 1)
    × (session.role ≡ some operator)
    × (((operator ≡ owner) ⊎ (operator ≡ admin)) ⊎ (granted 1 7 Permission.audit_read db ≡ true))
require_session-reserved_example =
    require_session-reserved session Permission.audit_read db {organization = 1} {role = operator}
      passes_check audit_reserved
