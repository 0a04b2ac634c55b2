-- ===== src/Auth/Permissions.antt =====
-- Roles and permissions: lib/auth/permissions.ts.
pub mod Laws
use moatazalasrai.Prelude.{
  Bool, true, false, ◌||◌, List, [], ◌∷◌, Option, none, some, String, str_eq, any,
}

pub data Role : Type 0 where
  owner admin developer operator viewer member : Role

pub data Permission : Type 0 where
  providers_read providers_manage agents_read agents_manage agents_run runs_read : Permission
  members_read members_manage audit_read analytics_read organization_manage : Permission
  integrations_read integrations_manage channels_read channels_manage channels_use : Permission
  channels_handoff notifications_read notifications_manage notifications_send : Permission
  control_plane_read control_plane_manage trash_manage content_read content_manage : Permission
  content_publish services_read services_manage menus_read menus_manage security_read : Permission
  security_manage files_read files_upload files_manage site_connections_read : Permission
  site_connections_manage site_connections_use site_connections_approve : Permission
  browser_tasks_read browser_tasks_run browser_tasks_manage browser_tasks_approve : Permission
  sandbox_read sandbox_use sandbox_manage sandbox_approve executions_read : Permission
  executions_run executions_manage tools_read tools_run tools_manage : Permission
  data_interpreter_run coding_agent_run coding_agent_write coding_agent_publish : Permission
  browser_agent_run browser_agent_write voice_studio_run voice_studio_manage_profiles : Permission

-- The text of a permission.
unfoldable pub permission_text : Permission → String
permission_text providers_read = "providers:read"
permission_text providers_manage = "providers:manage"
permission_text agents_read = "agents:read"
permission_text agents_manage = "agents:manage"
permission_text agents_run = "agents:run"
permission_text runs_read = "runs:read"
permission_text members_read = "members:read"
permission_text members_manage = "members:manage"
permission_text audit_read = "audit:read"
permission_text analytics_read = "analytics:read"
permission_text organization_manage = "organization:manage"
permission_text integrations_read = "integrations:read"
permission_text integrations_manage = "integrations:manage"
permission_text channels_read = "channels:read"
permission_text channels_manage = "channels:manage"
permission_text channels_use = "channels:use"
permission_text channels_handoff = "channels:handoff"
permission_text notifications_read = "notifications:read"
permission_text notifications_manage = "notifications:manage"
permission_text notifications_send = "notifications:send"
permission_text control_plane_read = "control_plane:read"
permission_text control_plane_manage = "control_plane:manage"
permission_text trash_manage = "trash:manage"
permission_text content_read = "content:read"
permission_text content_manage = "content:manage"
permission_text content_publish = "content:publish"
permission_text services_read = "services:read"
permission_text services_manage = "services:manage"
permission_text menus_read = "menus:read"
permission_text menus_manage = "menus:manage"
permission_text security_read = "security:read"
permission_text security_manage = "security:manage"
permission_text files_read = "files:read"
permission_text files_upload = "files:upload"
permission_text files_manage = "files:manage"
permission_text site_connections_read = "site_connections:read"
permission_text site_connections_manage = "site_connections:manage"
permission_text site_connections_use = "site_connections:use"
permission_text site_connections_approve = "site_connections:approve"
permission_text browser_tasks_read = "browser_tasks:read"
permission_text browser_tasks_run = "browser_tasks:run"
permission_text browser_tasks_manage = "browser_tasks:manage"
permission_text browser_tasks_approve = "browser_tasks:approve"
permission_text sandbox_read = "sandbox:read"
permission_text sandbox_use = "sandbox:use"
permission_text sandbox_manage = "sandbox:manage"
permission_text sandbox_approve = "sandbox:approve"
permission_text executions_read = "executions:read"
permission_text executions_run = "executions:run"
permission_text executions_manage = "executions:manage"
permission_text tools_read = "tools:read"
permission_text tools_run = "tools:run"
permission_text tools_manage = "tools:manage"
permission_text data_interpreter_run = "data_interpreter:run"
permission_text coding_agent_run = "coding_agent:run"
permission_text coding_agent_write = "coding_agent:write"
permission_text coding_agent_publish = "coding_agent:publish"
permission_text browser_agent_run = "browser_agent:run"
permission_text browser_agent_write = "browser_agent:write"
permission_text voice_studio_run = "voice_studio:run"
permission_text voice_studio_manage_profiles = "voice_studio:manage_profiles"

-- `set.has(permission)` and `list.includes(permission)`
abbrev pub has_permission : List Permission → Permission → Bool
has_permission ps p = any (λ q. str_eq (permission_text q) (permission_text p)) ps

unfoldable pub all_permissions : List Permission
all_permissions =
    providers_read ∷ providers_manage ∷ agents_read ∷ agents_manage ∷ agents_run ∷ runs_read
    ∷ members_read ∷ members_manage ∷ audit_read ∷ analytics_read ∷ organization_manage
    ∷ integrations_read ∷ integrations_manage ∷ channels_read ∷ channels_manage ∷ channels_use
    ∷ channels_handoff ∷ notifications_read ∷ notifications_manage ∷ notifications_send
    ∷ control_plane_read ∷ control_plane_manage ∷ trash_manage ∷ content_read ∷ content_manage
    ∷ content_publish ∷ services_read ∷ services_manage ∷ menus_read ∷ menus_manage ∷ security_read
    ∷ security_manage ∷ files_read ∷ files_upload ∷ files_manage ∷ site_connections_read
    ∷ site_connections_manage ∷ site_connections_use ∷ site_connections_approve ∷ browser_tasks_read
    ∷ browser_tasks_run ∷ browser_tasks_manage ∷ browser_tasks_approve ∷ sandbox_read ∷ sandbox_use
    ∷ sandbox_manage ∷ sandbox_approve ∷ executions_read ∷ executions_run ∷ executions_manage
    ∷ tools_read ∷ tools_run ∷ tools_manage ∷ data_interpreter_run ∷ coding_agent_run
    ∷ coding_agent_write ∷ coding_agent_publish ∷ browser_agent_run ∷ browser_agent_write
    ∷ voice_studio_run ∷ voice_studio_manage_profiles ∷ []

unfoldable pub role_permissions : Role → List Permission
unfolding all_permissions
role_permissions owner = all_permissions
role_permissions admin = all_permissions
role_permissions developer =
    providers_read ∷ providers_manage ∷ agents_read ∷ agents_manage ∷ agents_run ∷ runs_read
    ∷ integrations_read ∷ channels_read ∷ channels_manage ∷ channels_use ∷ channels_handoff
    ∷ notifications_read ∷ notifications_send ∷ control_plane_read ∷ analytics_read ∷ content_read
    ∷ services_read ∷ menus_read ∷ security_read ∷ files_read ∷ files_upload ∷ files_manage
    ∷ site_connections_read ∷ site_connections_manage ∷ site_connections_use ∷ browser_tasks_read
    ∷ browser_tasks_run ∷ sandbox_read ∷ sandbox_use ∷ sandbox_manage ∷ executions_read
    ∷ executions_run ∷ executions_manage ∷ tools_read ∷ tools_run ∷ data_interpreter_run
    ∷ coding_agent_run ∷ coding_agent_write ∷ browser_agent_run ∷ browser_agent_write
    ∷ voice_studio_run ∷ []
role_permissions operator =
    providers_read ∷ agents_read ∷ agents_run ∷ runs_read ∷ integrations_read ∷ channels_read
    ∷ channels_use ∷ channels_handoff ∷ notifications_read ∷ notifications_send ∷ control_plane_read
    ∷ analytics_read ∷ content_read ∷ services_read ∷ menus_read ∷ security_read ∷ files_read
    ∷ files_upload ∷ files_manage ∷ site_connections_read ∷ site_connections_use
    ∷ site_connections_approve ∷ browser_tasks_read ∷ browser_tasks_run ∷ browser_tasks_approve
    ∷ sandbox_read ∷ sandbox_use ∷ sandbox_approve ∷ executions_read ∷ executions_run ∷ tools_read
    ∷ tools_run ∷ data_interpreter_run ∷ browser_agent_run ∷ voice_studio_run ∷ []
role_permissions viewer =
    providers_read ∷ agents_read ∷ runs_read ∷ integrations_read ∷ channels_read
    ∷ notifications_read ∷ control_plane_read ∷ analytics_read ∷ content_read ∷ services_read
    ∷ menus_read ∷ files_read ∷ site_connections_read ∷ browser_tasks_read ∷ sandbox_read
    ∷ executions_read ∷ tools_read ∷ []
role_permissions member =
    agents_read ∷ agents_run ∷ channels_read ∷ channels_use ∷ notifications_read ∷ content_read
    ∷ services_read ∷ menus_read ∷ files_read ∷ files_upload ∷ site_connections_read
    ∷ site_connections_use ∷ browser_tasks_read ∷ browser_tasks_run ∷ sandbox_read ∷ sandbox_use
    ∷ security_read ∷ tools_read ∷ tools_run ∷ data_interpreter_run ∷ voice_studio_run ∷ []

-- `can`; `none` is no role.
unfoldable pub can : Option Role → Permission → Bool
unfolding role_permissions permission_text
can none p = false
can (some role) p = has_permission (role_permissions role) p

-- `permissionsFor`
unfoldable pub permissions_for : Option Role → List Permission
unfolding role_permissions
permissions_for none = []
permissions_for (some role) = role_permissions role
