-- ===== src/Api/Cameras.antt =====
-- server/src/routes/cameras.routes.ts: a camera is created and changed.
pub mod Limit
use ai_cctv_platform.Common.{
  ℕ, ◌≡◌, refl, String, Bool, true, false, ◌||◌, Option, none, some, ◌==◌, ◌⧺◌, ◌+◌, coalesce,
  or_else, truthy, is_some, leb, ltb, length, first, if◌then◌else◌,
}
use ai_cctv_platform.Access.Errors.{forbidden}
use ai_cctv_platform.Media.Status.{CameraStatus, CameraHealth}
use ai_cctv_platform.Tenancy.World.{World, Runtime, Clock, Camera, Credentials, Subscription}
use ai_cctv_platform.Tenancy.Rls.{
  TenantContext, Run, ok, Handler, pure, throw, gets, when, ◌>>=◌, ◌>>◌, select, new_id,
  insert_camera, insert_credentials, update_cameras, update_credentials,
}
use ai_cctv_platform.Services.Notification.{audit}
use ai_cctv_platform.Api.Rows.{
  returning, require_site, require_camera, require_zone_of, require_zone,
}
use ai_cctv_platform.Api.Secrets.{encrypt_secret}
use ai_cctv_platform.Api.Sites.{Caller}

pub record CameraInput : Type 0 where
  pub site_id : String
  pub zone_id : Option String
  pub name : String
  pub rtsp_host : Option String
  pub rtsp_path : Option String
  pub rtsp_port : Option ℕ
  pub onvif_endpoint : Option String
  pub stream_profile : Option String
  pub enabled : Option Bool
  pub inference_enabled : Option Bool
  pub inference_fps : Option ℕ
  pub source_kind : Option String
  pub username : Option String
  pub password : Option String

pub record CameraPatch : Type 0 where
  pub name : Option String
  pub rtsp_host : Option String
  pub rtsp_path : Option String
  pub rtsp_port : Option ℕ
  pub onvif_endpoint : Option String
  pub stream_profile : Option String
  pub enabled : Option Bool
  pub inference_enabled : Option Bool
  pub inference_fps : Option ℕ
  pub username : Option String
  pub password : Option String

-- The subscription the handle sees, and how many cameras it sees.
unfoldable pub camera_limit : TenantContext → World → Option ℕ × ℕ
unfolding select
camera_limit db w = (
  elim (first (select (λ (s : Subscription). s.organization_id) db (λ s. true) w.subscriptions)) [
    | none ↦ none
    | some s ↦ some s.camera_limit
  ],
  length (select (λ (c : Camera). c.organization_id) db (λ c. true) w.cameras),
)

-- `if (lim && used >= limit) throw`.
unfoldable pub check_limit : Runtime → Option ℕ × ℕ → Handler (Unit {0})
check_limit rt (none, used) = pure tt
check_limit rt (some limit, used) =
    if leb limit used
    then throw (
        forbidden
          ("Camera limit reached for your plan (" ⧺ rt.decimal limit ⧺ "). Upgrade to add more."))
    else pure tt

module _ (rt : Runtime) (clock : Clock) (db : TenantContext) (caller : Caller) where
  unfoldable pub new_credentials : String → Option String → Option String → Handler Credentials
  unfolding encrypt_secret
  new_credentials camera_id username password = do
    username_enc ← encrypt_secret rt (coalesce username "")
    password_enc ← encrypt_secret rt (coalesce password "")
    pure (record {
      organization_id = caller.organization_id;
      camera_id = camera_id;
      username_enc = username_enc;
      password_enc = password_enc;
      updated_at = clock.db_now;
    })

  -- Nothing is stored where both are missing or empty.
  unfoldable pub store_credentials : String → Option String → Option String → Handler (Unit {0})
  unfolding new_credentials
  store_credentials camera_id username password =
      when (is_some (truthy username) || is_some (truthy password))
        (new_credentials camera_id username password >>= λ r. insert_credentials db r)

  unfoldable pub new_camera : String → CameraInput → Camera
  new_camera id input = record {
    id = id;
    organization_id = caller.organization_id;
    site_id = input.site_id;
    zone_id = input.zone_id;
    name = input.name;
    rtsp_host = input.rtsp_host;
    rtsp_path = input.rtsp_path;
    rtsp_port = coalesce input.rtsp_port 554;
    onvif_endpoint = input.onvif_endpoint;
    stream_profile = coalesce input.stream_profile "main";
    enabled = coalesce input.enabled true;
    inference_enabled = coalesce input.inference_enabled false;
    inference_fps = coalesce input.inference_fps 200;
    source_kind = coalesce input.source_kind "RTSP";
    status = CameraStatus.unknown;
    health = CameraHealth.unknown;
    resolution = none;
    codec = none;
    source_fps = none;
    reconnect_count = 0;
    last_frame_at = none;
    last_inference_at = none;
    last_connected_at = none;
    last_seen_at = none;
    updated_at = clock.db_now;
  }

  -- The body below the checks.
  unfoldable pub store_camera : CameraInput → String → Handler Camera
  unfolding new_camera store_credentials
  store_camera input id = do
    insert_camera db (new_camera id input)
    store_credentials id input.username input.password
    audit db caller.organization_id (some caller.user_id) "camera.create" "camera" (some id)
        caller.ip
    pure (new_camera id input)

  unfoldable pub create_camera : CameraInput → Handler Camera
  unfolding require_site require_zone camera_limit check_limit store_camera
  create_camera input = do
    _ ← require_site db input.site_id
    require_zone_of db (truthy input.zone_id)
    lim ← gets (camera_limit db)
    check_limit rt lim
    id ← new_id rt
    store_camera input id

  unfoldable pub patch_camera : CameraPatch → Camera → Camera
  patch_camera input r = record r {
    name = coalesce input.name r.name;
    rtsp_host = or_else input.rtsp_host r.rtsp_host;
    rtsp_path = or_else input.rtsp_path r.rtsp_path;
    onvif_endpoint = or_else input.onvif_endpoint r.onvif_endpoint;
    rtsp_port = coalesce input.rtsp_port r.rtsp_port;
    stream_profile = coalesce input.stream_profile r.stream_profile;
    enabled = coalesce input.enabled r.enabled;
    inference_enabled = coalesce input.inference_enabled r.inference_enabled;
    inference_fps = coalesce input.inference_fps r.inference_fps;
    updated_at = clock.db_now;
  }

  unfoldable pub select_credentials : String → World → Option Credentials
  unfolding select
  select_credentials camera_id w = first (
      select (λ (r : Credentials). r.organization_id) db (λ r. r.camera_id == camera_id)
        w.credentials)

  unfoldable pub replace_credentials : Credentials → Credentials → Credentials
  replace_credentials excluded r = record r {
    username_enc = excluded.username_enc;
    password_enc = excluded.password_enc;
    updated_at = clock.db_now;
  }

  -- INSERT … ON CONFLICT (camera_id) DO UPDATE. The credentials of a camera that the handle sees
  -- are of the same organization, so a row in conflict is a visible one.
  unfoldable pub upsert_credentials : Credentials → Handler (Unit {0})
  unfolding select_credentials replace_credentials
  upsert_credentials r = gets (select_credentials r.camera_id) >>= λ old.
      if is_some old
      then update_credentials db (λ x. x.camera_id == r.camera_id) (replace_credentials r)
      else insert_credentials db r

  unfoldable pub update_camera : String → CameraPatch → Handler (Option Camera)
  unfolding require_camera patch_camera returning new_credentials upsert_credentials
  update_camera id input = do
    _ ← require_camera db id
    update_cameras db (λ r. r.id == id) (patch_camera input)
    row ← gets (returning (λ r. r.organization_id) (λ r. r.id) "cameras" (λ w. w.cameras) db id)
    when (is_some input.username || is_some input.password)
        (new_credentials id input.username input.password >>= λ r. upsert_credentials r)
    audit db caller.organization_id none "camera.update" "camera" (some id) caller.ip
    pure row
