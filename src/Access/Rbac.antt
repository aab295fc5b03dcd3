-- ===== src/Access/Rbac.antt =====
-- server/src/lib/rbac.ts: roles, permissions and the table that joins them.
mod Laws
mod Examples
use ai_cctv_platform.Common.{ℕ, Bool, String, leb}

pub data OrgRole : Type 0 where
  owner admin operator viewer : OrgRole

pub data Permission : Type 0 where
  org_read org_update org_delete : Permission
  members_read members_manage : Permission
  sites_read sites_write zones_read zones_write : Permission
  cameras_read cameras_write cameras_stream credentials_write : Permission
  airules_read airules_write : Permission
  events_read events_handle evidence_read : Permission
  notifications_read notifications_manage : Permission
  reports_read reports_write : Permission
  billing_read billing_manage audit_read : Permission

unfoldable pub rank : OrgRole → ℕ
rank viewer = 0
rank operator = 1
rank admin = 2
rank owner = 3

unfoldable pub role_at_least : OrgRole → OrgRole → Bool
unfolding rank
role_at_least role minimum = leb (rank minimum) (rank role)

unfoldable pub permission_min_role : Permission → OrgRole
permission_min_role org_read = viewer
permission_min_role org_update = admin
permission_min_role org_delete = owner
permission_min_role members_read = operator
permission_min_role members_manage = admin
permission_min_role sites_read = viewer
permission_min_role sites_write = admin
permission_min_role zones_read = viewer
permission_min_role zones_write = admin
permission_min_role cameras_read = viewer
permission_min_role cameras_write = admin
permission_min_role cameras_stream = operator
permission_min_role credentials_write = admin
permission_min_role airules_read = viewer
permission_min_role airules_write = admin
permission_min_role events_read = viewer
permission_min_role events_handle = operator
permission_min_role evidence_read = viewer
permission_min_role notifications_read = viewer
permission_min_role notifications_manage = admin
permission_min_role reports_read = viewer
permission_min_role reports_write = operator
permission_min_role billing_read = admin
permission_min_role billing_manage = owner
permission_min_role audit_read = admin

unfoldable pub role_has_permission : OrgRole → Permission → Bool
unfolding role_at_least permission_min_role
role_has_permission role permission = role_at_least role (permission_min_role permission)

unfoldable pub permission_name : Permission → String
permission_name org_read = "org:read"
permission_name org_update = "org:update"
permission_name org_delete = "org:delete"
permission_name members_read = "members:read"
permission_name members_manage = "members:manage"
permission_name sites_read = "sites:read"
permission_name sites_write = "sites:write"
permission_name zones_read = "zones:read"
permission_name zones_write = "zones:write"
permission_name cameras_read = "cameras:read"
permission_name cameras_write = "cameras:write"
permission_name cameras_stream = "cameras:stream"
permission_name credentials_write = "credentials:write"
permission_name airules_read = "airules:read"
permission_name airules_write = "airules:write"
permission_name events_read = "events:read"
permission_name events_handle = "events:handle"
permission_name evidence_read = "evidence:read"
permission_name notifications_read = "notifications:read"
permission_name notifications_manage = "notifications:manage"
permission_name reports_read = "reports:read"
permission_name reports_write = "reports:write"
permission_name billing_read = "billing:read"
permission_name billing_manage = "billing:manage"
permission_name audit_read = "audit:read"

unfoldable pub role_name : OrgRole → String
role_name owner = "OWNER"
role_name admin = "ADMIN"
role_name operator = "OPERATOR"
role_name viewer = "VIEWER"
