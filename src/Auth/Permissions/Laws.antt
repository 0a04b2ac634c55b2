-- ===== src/Auth/Permissions/Laws.antt =====
-- Which role holds which permission.
use moatazalasrai.Prelude.{
  ◌≡◌, refl, ◌⊎◌, inl, inr, Bool, true, false, ◌&&◌, ◌||◌, not, List, [], ◌∷◌, some, arith,
}
use moatazalasrai.Auth.Permissions.{
  Role, owner, admin, developer, operator, viewer, member, Permission, permission_text,
  has_permission, can,
}

-- What only an owner and an administrator may do.
unfoldable pub reserved : List Permission
reserved =
    Permission.members_read ∷ Permission.members_manage ∷ Permission.audit_read
    ∷ Permission.organization_manage ∷ Permission.integrations_manage
    ∷ Permission.notifications_manage ∷ Permission.control_plane_manage ∷ Permission.trash_manage
    ∷ Permission.content_manage ∷ Permission.content_publish ∷ Permission.services_manage
    ∷ Permission.menus_manage ∷ Permission.security_manage ∷ Permission.browser_tasks_manage
    ∷ Permission.tools_manage ∷ Permission.coding_agent_publish
    ∷ Permission.voice_studio_manage_profiles ∷ []

-- No other role holds a reserved permission.
developer_reserved :
    (p : Permission) → (can (some developer) p && has_permission reserved p) ≡ false
unfolding can reserved permission_text
developer_reserved Permission.providers_read = refl
developer_reserved _ = refl

operator_reserved : (p : Permission) → (can (some operator) p && has_permission reserved p) ≡ false
unfolding can reserved permission_text
operator_reserved Permission.providers_read = refl
operator_reserved _ = refl

viewer_reserved : (p : Permission) → (can (some viewer) p && has_permission reserved p) ≡ false
unfolding can reserved permission_text
viewer_reserved Permission.providers_read = refl
viewer_reserved _ = refl

member_reserved : (p : Permission) → (can (some member) p && has_permission reserved p) ≡ false
unfolding can reserved permission_text
member_reserved Permission.providers_read = refl
member_reserved _ = refl

both_absurd : (a b : Bool) → (a && b) ≡ false → a ≡ true → b ≡ true → ⊥
both_absurd true true h e f = absurd (cc h)
both_absurd true false h e f = absurd (cc f)
both_absurd false b h e f = absurd (cc e)

pub can-reserved :
    (role : Role) (p : Permission)
    → can (some role) p ≡ true
    → has_permission reserved p ≡ true
    → (role ≡ owner) ⊎ (role ≡ admin)
can-reserved owner p h r = inl refl
can-reserved admin p h r = inr refl
can-reserved developer p h r = absurd (both_absurd _ _ (developer_reserved p) h r)
can-reserved operator p h r = absurd (both_absurd _ _ (operator_reserved p) h r)
can-reserved viewer p h r = absurd (both_absurd _ _ (viewer_reserved p) h r)
can-reserved member p h r = absurd (both_absurd _ _ (member_reserved p) h r)

covered :
    (p : Permission)
    → (not (can (some viewer) p) || (can (some developer) p && can (some operator) p)) ≡ true
unfolding can permission_text
covered Permission.providers_read = refl
covered _ = refl

split : (v d o : Bool) → (not v || (d && o)) ≡ true → v ≡ true → (d ≡ true) × (o ≡ true)
split v d o h e = ground arith

-- The developer and the operator hold every permission that the viewer holds.
pub can-viewer :
    (p : Permission)
    → can (some viewer) p ≡ true
    → (can (some developer) p ≡ true) × (can (some operator) p ≡ true)
can-viewer p h = split _ (can (some developer) p) (can (some operator) p) (covered p) h
