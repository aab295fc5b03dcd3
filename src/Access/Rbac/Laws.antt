-- ===== src/Access/Rbac/Laws.antt =====
-- What the roles of server/src/lib/rbac.ts promise.
use ai_cctv_platform.Common.{◌≡◌, Bool, true, false, arith}
use ai_cctv_platform.Access.Rbac.{
  OrgRole, owner, operator, viewer, Permission, org_read, sites_read, zones_read, cameras_read,
  airules_read, events_read, evidence_read, notifications_read, reports_read, members_read,
  cameras_stream, events_handle, reports_write, role_at_least, permission_min_role,
  role_has_permission,
}

-- The permissions that only read, as the comment on VIEWER has it.
abbrev pub reads_only : Permission → Bool
reads_only org_read = true
reads_only sites_read = true
reads_only zones_read = true
reads_only cameras_read = true
reads_only airules_read = true
reads_only events_read = true
reads_only evidence_read = true
reads_only notifications_read = true
reads_only reports_read = true
reads_only members_read = true
reads_only _ = false

-- What the comment on OPERATOR adds: monitoring, incident handling, and reports.
abbrev pub monitors : Permission → Bool
monitors cameras_stream = true
monitors events_handle = true
monitors reports_write = true
monitors p = reads_only p

-- A role at least as high as another holds every permission that the other holds.
pub role_has_permission_mono :
    (role higher : OrgRole) (p : Permission)
    → role_at_least higher role ≡ true
    → role_has_permission role p ≡ true
    → role_has_permission higher p ≡ true
unfolding role_has_permission
role_has_permission_mono role higher p h k = ground (arith, permission_min_role p)

-- A viewer's permissions only read, an operator's only read, stream, handle incidents and write
-- reports, and an owner holds every permission.
pub role_has_permission_scope :
    (p : Permission)
    → (role_has_permission viewer p ≡ true → reads_only p ≡ true)
      × (role_has_permission operator p ≡ true → monitors p ≡ true)
      × (role_has_permission owner p ≡ true)
unfolding role_has_permission
role_has_permission_scope p = ground arith
