-- ===== src/Api/Requests.antt =====
-- The tenant routes as one function of a request: the checks that stand before the route, the
-- organization they read, the transaction on a handle bound to it, and what follows it
-- (server/src/routes). The body of a request has been parsed.
pub mod Isolation
pub mod Hidden
use ai_cctv_platform.Common.{ℕ, String, Bool, true, false, Option, none, some, if◌then◌else◌}
use ai_cctv_platform.Access.Rbac.{
  OrgRole, Permission, sites_write, zones_write, cameras_write, members_manage, events_handle,
  evidence_read,
}
use ai_cctv_platform.Access.Directory.{MemberStatus, Directory, Primitives, Checked, passes, fails}
use ai_cctv_platform.Access.Guards.{RequestContext, get_current_organization, admit, tenant_db}
use ai_cctv_platform.Ai.Types.{EventStatus, is_safety_security_type}
use ai_cctv_platform.Ai.Engine.{DetectionResult}
use ai_cctv_platform.Tenancy.World.{
  World, Runtime, Clock, Site, Zone, Camera, Member, Event, IncidentNote,
}
use ai_cctv_platform.Tenancy.Rls.{TenantContext, Handler, pure, throw, ◌>>=◌, ◌>>◌}
use ai_cctv_platform.Api.Rows.{raised}
use ai_cctv_platform.Api.Sites.{
  Caller, SiteInput, SitePatch, ZoneInput, create_site, update_site, create_zone,
}
use ai_cctv_platform.Api.Cameras.{CameraInput, CameraPatch, create_camera, update_camera}
use ai_cctv_platform.Api.Members.{resolve_user, add_member, update_member, remove_member}
use ai_cctv_platform.Api.Events.{
  IngestInput, Created, SignedUrl, update_status, add_note, evidence_url, ingest_safety,
  ingest_base, announce,
}

pub data TenantRequest : Type 0 where
  site_create : SiteInput → TenantRequest
  site_update : String → SitePatch → TenantRequest
  zone_create : ZoneInput → TenantRequest
  camera_create : CameraInput → TenantRequest
  camera_update : String → CameraPatch → TenantRequest
  member_invite : String → OrgRole → TenantRequest
  member_update : String → Option OrgRole → Option MemberStatus → TenantRequest
  member_remove : String → TenantRequest
  event_status : String → EventStatus → TenantRequest
  event_note : String → String → TenantRequest
  event_evidence : String → String → TenantRequest
  event_ingest : IngestInput → TenantRequest

-- `requirePermission(…)` of each route.
unfoldable pub permission_of : TenantRequest → Permission
permission_of (site_create _) = sites_write
permission_of (site_update _ _) = sites_write
permission_of (zone_create _) = zones_write
permission_of (camera_create _) = cameras_write
permission_of (camera_update _ _) = cameras_write
permission_of (member_invite _ _) = members_manage
permission_of (member_update _ _ _) = members_manage
permission_of (member_remove _) = members_manage
permission_of (event_status _ _) = events_handle
permission_of (event_note _ _) = events_handle
permission_of (event_evidence _ _) = evidence_read
permission_of (event_ingest _) = events_handle

pub data Answer : Type 0 where
  site : Option Site → Answer
  zone : Zone → Answer
  camera : Option Camera → Answer
  member : Option Member → Answer
  event : Option Event → Answer
  note : IncidentNote → Answer
  evidence : Option SignedUrl → Answer
  raised_incident : DetectionResult → Answer
  created : Created → Answer
  done : Answer

-- The secret and the time to live of signed URLs.
pub record Signing : Type 0 where
  pub prims : Primitives
  pub key : String
  pub ttl : ℕ

module _ (rt : Runtime) (clock : Clock) (signing : Signing) (ctx : RequestContext) where
  -- `tenantDb(req, …)`, then the answer.
  abbrev pub in_tenant {ℓ} :
      {A : Type ℓ} → (TenantContext → Handler A) → (A → Handler Answer) → Handler Answer
  in_tenant fn answer = tenant_db (some ctx) fn >>= answer

  unfoldable pub route : Caller → TenantRequest → Handler Answer
  unfolding tenant_db create_site update_site create_zone create_camera update_camera resolve_user
      add_member update_member remove_member update_status add_note evidence_url ingest_safety
      ingest_base announce is_safety_security_type
  route caller (site_create input) =
      in_tenant (λ db. create_site rt clock db caller input) (λ r. pure (site (some r)))
  route caller (site_update id input) =
      in_tenant (λ db. update_site rt clock db caller id input) (λ r. pure (site r))
  route caller (zone_create input) =
      in_tenant (λ db. create_zone rt clock db caller input) (λ r. pure (zone r))
  route caller (camera_create input) =
      in_tenant (λ db. create_camera rt clock db caller input) (λ r. pure (camera (some r)))
  route caller (camera_update id input) =
      in_tenant (λ db. update_camera rt clock db caller id input) (λ r. pure (camera r))
  route caller (member_invite email role) =
      resolve_user rt (rt.lower (rt.trim email)) >>= λ user_id.
      in_tenant (λ db. add_member rt clock db caller user_id role) (λ r. pure (member (some r)))
  route caller (member_update id role status) =
      in_tenant (λ db. update_member rt clock db caller id role status) (λ r. pure (member r))
  route caller (member_remove id) =
      in_tenant (λ db. remove_member rt clock db caller id) (λ r. pure done)
  route caller (event_status id status) =
      in_tenant (λ db. update_status rt clock db caller id status) (λ r. pure (event r))
  route caller (event_note id text) =
      in_tenant (λ db. add_note rt clock db caller id text) (λ r. pure (note r))
  route caller (event_evidence id evidence_id) =
      in_tenant
        (λ db. evidence_url rt clock db caller signing.prims signing.key signing.ttl id evidence_id)
        (λ r. pure (evidence r))
  route caller (event_ingest input) =
      if is_safety_security_type input.event_type
      then in_tenant (λ db. ingest_safety rt clock db caller input) (λ r. pure (raised_incident r))
      else in_tenant (λ db. ingest_base rt clock db caller input)
          (λ r. announce caller.organization_id r >> pure (created r))

  -- The route of an admitted request.
  unfoldable pub serve : Option String → TenantRequest → Handler Answer
  unfolding get_current_organization route
  serve ip request = raised (get_current_organization (some ctx)) >>= λ org.
      route (record { organization_id = org; user_id = ctx.user.id; ip = ip }) request

module _ (rt : Runtime) (clock : Clock) (signing : Signing) where
  abbrev pub answered : Checked RequestContext → Option String → TenantRequest → Handler Answer
  answered (fails e) ip request = throw e
  answered (passes ctx) ip request = serve rt clock signing ctx ip request

  -- A request from its cookie on; `secret` signs sessions.
  unfoldable pub handle :
      String → Option String → Directory → Option String → TenantRequest → Handler Answer
  unfolding admit permission_of serve
  handle secret cookie dir ip request =
      answered ((admit signing.prims secret clock.date_now (permission_of request) cookie dir).0) ip
        request
