-- ===== src/Access/Rbac/Examples.antt =====
-- Tests of the roles, and their theorems at concrete inputs.
use ai_cctv_platform.Common.{◌≡◌, refl, true, false}
use ai_cctv_platform.Access.Rbac.{
  owner, operator, viewer, events_handle, members_manage, role_has_permission,
}
use ai_cctv_platform.Access.Rbac.Laws.{reads_only, monitors, role_has_permission_scope}

viewer_handles : role_has_permission viewer events_handle ≡ false
unfolding role_has_permission
viewer_handles = refl

role_has_permission_scope_example :
    (role_has_permission viewer members_manage ≡ true → reads_only members_manage ≡ true)
    × (role_has_permission operator members_manage ≡ true → monitors members_manage ≡ true)
    × (role_has_permission owner members_manage ≡ true)
role_has_permission_scope_example = role_has_permission_scope members_manage
