-- ===== src/Access/Guards.antt =====
-- server/src/middleware/context.ts: from a session cookie to a request's tenant context, and the
-- checks that stand before every tenant route.
pub mod Admission
pub mod Isolation
pub mod Examples
use ai_cctv_platform.Common.{
  ℕ, Bool, true, false, not, String, Option, some, none, ◌==◌, ◌⧺◌, truthy, if◌then◌else◌,
}
use ai_cctv_platform.Access.Errors.{Error, unauthorized, forbidden}
use ai_cctv_platform.Access.Rbac.{
  OrgRole, owner, Permission, role_name, permission_name, role_has_permission,
}
use ai_cctv_platform.Access.Directory.{
  MemberStatus, active, invited, suspended, Directory, Primitives, Checked, passes, fails,
}
use ai_cctv_platform.Access.Tokens.{verify_session_id}
use ai_cctv_platform.Access.Sessions.{
  AuthUser, ResolvedSession, Membership, resolve_session, get_membership,
}
use ai_cctv_platform.Tenancy.Rls.{TenantContext, Handler, throw, with_tenant}

pub record RequestContext : Type 0 where
  pub user : AuthUser
  pub session_id : String
  pub membership : Option Membership

unfoldable pub is_active : MemberStatus → Bool
is_active active = true
is_active invited = false
is_active suspended = false

module _ (prims : Primitives) (secret : String) where
  abbrev pub read_signed : Option String → Option String
  read_signed none = none
  read_signed (some raw) = verify_session_id prims secret raw

  unfoldable pub read_session_cookie : Option String → Option String
  read_session_cookie cookie = read_signed (truthy cookie)

-- The membership that a request keeps: an active one.
unfoldable pub active_only : Option Membership → Option Membership
unfolding is_active
active_only none = none
active_only (some m) = if is_active m.status then some m else none

unfoldable pub membership_in : String → Option String → Directory → Option Membership
unfolding active_only
membership_in user_id none dir = none
membership_in user_id (some org) dir = active_only (get_membership user_id org dir)

unfoldable pub context_of : Option ResolvedSession × Directory → Checked RequestContext × Directory
unfolding membership_in
context_of (none, dir) = (fails (unauthorized "Session expired or invalid"), dir)
context_of (some r, dir) = (
  passes (record {
    user = r.user;
    session_id = r.session_id;
    membership = membership_in r.user.id (truthy r.active_org_id) dir;
  }),
  dir,
)

unfoldable pub authenticate : ℕ → Option String → Directory → Checked RequestContext × Directory
unfolding context_of
authenticate now none dir = (fails (unauthorized "Authentication required"), dir)
authenticate now (some session_id) dir = context_of (resolve_session now session_id dir)

-- `now` is `Date.now()`, `secret` the session secret.
unfoldable pub require_auth :
    Primitives → String → ℕ → Option String → Directory → Checked RequestContext × Directory
unfolding read_session_cookie authenticate
require_auth prims secret now cookie dir =
    authenticate now (truthy (read_session_cookie prims secret cookie)) dir

abbrev pub active_member : Option Membership → Checked Membership
active_member none = fails (forbidden "No active organization membership for this request")
active_member (some m) =
    if is_active m.status
    then passes m
    else fails (forbidden "Organization membership is not active")

unfoldable pub require_organization_membership : Option RequestContext → Checked Membership
unfolding is_active
require_organization_membership none = fails (unauthorized "Authentication required")
require_organization_membership (some ctx) = active_member ctx.membership

abbrev pub permitted : Permission → Option Membership → Checked Membership
permitted permission none = fails (forbidden "No active organization membership")
permitted permission (some m) =
    if role_has_permission m.role permission
    then passes m
    else fails (
        forbidden
          ("Your role (" ⧺ role_name m.role ⧺ ") lacks permission: " ⧺ permission_name permission))

unfoldable pub require_permission : Permission → Option RequestContext → Checked Membership
unfolding role_has_permission role_name permission_name
require_permission permission none = fails (unauthorized "Authentication required")
require_permission permission (some ctx) = permitted permission ctx.membership

unfoldable pub require_platform_admin : Option RequestContext → Checked AuthUser
require_platform_admin none = fails (unauthorized "Authentication required")
require_platform_admin (some ctx) =
    if ctx.user.is_platform_admin
    then passes ctx.user
    else fails (forbidden "Platform administrator access required")

abbrev pub organization_of : Option Membership → Checked String
organization_of none = fails (forbidden "No active organization")
organization_of (some m) =
    if m.organization_id == ""
    then fails (forbidden "No active organization")
    else passes m.organization_id

unfoldable pub get_current_organization : Option RequestContext → Checked String
get_current_organization none = fails (forbidden "No active organization")
get_current_organization (some ctx) = organization_of ctx.membership

-- The chain before a tenant route: authentication, membership, permission.
abbrev pub kept : RequestContext → Checked Membership → Checked RequestContext
kept ctx (passes _) = passes ctx
kept ctx (fails e) = fails e

abbrev pub followed :
    Checked RequestContext → (RequestContext → Checked Membership) → Checked RequestContext
followed (fails e) k = fails e
followed (passes ctx) k = kept ctx (k ctx)

unfoldable pub admit :
    Primitives
    → String
    → ℕ
    → Permission
    → Option String
    → Directory
    → Checked RequestContext × Directory
unfolding require_auth require_organization_membership require_permission
admit prims secret now permission cookie dir =
    let (checked, dir') = require_auth prims secret now cookie dir in
    (
      followed (followed checked (λ ctx. require_organization_membership (some ctx)))
          (λ ctx. require_permission permission (some ctx)),
      dir',
    )

-- The context that a tenant route's handle is bound to.
abbrev pub tenant_context : AuthUser → Membership → TenantContext
tenant_context user m = record {
  user_id = user.id;
  organization_id = m.organization_id;
  is_platform_admin = false;
}

abbrev pub bind_tenant {ℓ} :
    {A : Type ℓ} → AuthUser → Option Membership → (TenantContext → Handler A) → Handler A
bind_tenant user none fn = throw (forbidden "No active organization")
bind_tenant user (some m) fn = with_tenant (tenant_context user m) fn

unfoldable pub tenant_db {ℓ} :
    {A : Type ℓ} → Option RequestContext → (TenantContext → Handler A) → Handler A
tenant_db none fn = throw (unauthorized "Authentication required")
tenant_db (some ctx) fn = bind_tenant ctx.user ctx.membership fn

-- `platformDb`: the handle of the platform's own routes sees every organization.
unfoldable pub platform_db {ℓ} :
    {A : Type ℓ} → Option RequestContext → (TenantContext → Handler A) → Handler A
platform_db none fn = throw (forbidden "Platform administrator access required")
platform_db (some ctx) fn =
    if ctx.user.is_platform_admin
    then with_tenant
        (record { user_id = ctx.user.id; organization_id = ""; is_platform_admin = true }) fn
    else throw (forbidden "Platform administrator access required")
