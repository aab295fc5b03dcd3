-- ===== src/Api/Objects/Playback.antt =====
-- server/src/routes/storage.routes.ts: the playback of a stream under a signed token.
use ai_cctv_platform.Common.{
  ℕ, not, String, Option, some, none, ◌==◌, ◌⧺◌, first, truthy, if◌then◌else◌,
}
use ai_cctv_platform.Access.Directory.{Directory, Primitives}
use ai_cctv_platform.Access.Guards.{RequestContext, is_active, tenant_db}
use ai_cctv_platform.Access.Sessions.{Membership, get_membership}
use ai_cctv_platform.Api.Objects.Expiry.{QueryNumber, verify_stream}
use ai_cctv_platform.Tenancy.World.{World, Camera}
use ai_cctv_platform.Tenancy.Rls.{TenantContext, Handler, pure, gets, ◌>>=◌, select, run_handlers}
use ai_cctv_platform.Api.Objects.{Reply, sent, refused}

-- The query of a request: a missing text is empty, and a missing `exp` is 0.
pub record PlaybackQuery : Type 0 where
  pub cam : String
  pub org : String
  pub sid : String
  pub exp : QueryNumber
  pub sig : String

pub record PlaybackInfo : Type 0 where
  pub protocol : String
  pub manifest : String
  pub expires_at : QueryNumber

abbrev pub playback_info : PlaybackQuery → PlaybackInfo
playback_info q = record {
  protocol = "hls";
  manifest = "#EXTM3U\n#EXT-X-VERSION:3\n# session " ⧺ q.sid ⧺ " for camera " ⧺ q.cam ⧺ "\n";
  expires_at = q.exp;
}

abbrev pub site_id_of : Option Camera → Option String
site_id_of none = none
site_id_of (some c) = some c.site_id

-- `SELECT site_id FROM cameras WHERE id = $1`, and the site's id unless it is empty.
unfoldable pub camera_site : TenantContext → String → World → Option String
unfolding select
camera_site db cam w =
    site_id_of (first (select (λ (c : Camera). c.organization_id) db (λ c. c.id == cam) w.cameras))

-- `secret` is the key of the HMAC, `now` the current second.
module _ (prims : Primitives) (secret : String) (now : ℕ) (q : PlaybackQuery) where
  abbrev pub play : Option String → Reply PlaybackInfo
  play none = refused 404 "NOT_FOUND" "Camera not found"
  play (some site_id) =
      if verify_stream prims secret now q.org q.cam site_id q.sid q.exp q.sig
      then sent (playback_info q)
      else refused 403 "FORBIDDEN" "Invalid or expired stream token"

  abbrev pub play_as : RequestContext → Option Membership → Handler (Reply PlaybackInfo)
  play_as ctx none = pure (refused 404 "NOT_FOUND" "Not found")
  play_as ctx (some m) =
      if not (is_active m.status)
      then pure (refused 404 "NOT_FOUND" "Not found")
      else tenant_db (some (record ctx { membership = some m })) (λ db. gets (camera_site db q.cam))
        >>= λ site_id. pure (play (truthy site_id))

  unfoldable pub playback : Directory → RequestContext → Handler (Reply PlaybackInfo)
  unfolding is_active tenant_db camera_site verify_stream run_handlers
  playback dir ctx = play_as ctx (get_membership ctx.user.id q.org dir)
