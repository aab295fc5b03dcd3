-- ===== src/Media/Health.antt =====
-- server/src/media/health.service.ts: `applyHealthUpdate`, and the reports of one camera in a row.
pub mod Transitions
pub mod Decisions
pub mod Emitted
pub mod Reported
pub mod Flapping
pub mod Isolation
pub mod Examples
use ai_cctv_platform.Common.{
  ℕ, ◌+◌, Bool, true, false, ◌&&◌, not, String, ◌==◌, Option, some, none, List, [], ◌∷◌,
  if◌then◌else◌, or_else, first,
}
use ai_cctv_platform.Ai.Types.{
  EventType, EventSeverity, camera_offline, camera_recovered, high, info, open_, type_name,
}
use ai_cctv_platform.Media.Status.{CameraStatus, health_for, is_offline_status, is_online}
use ai_cctv_platform.Tenancy.World.{World, Runtime, Camera, camera_state}
use ai_cctv_platform.Tenancy.Rls.{
  TenantContext, Handler, pure, gets, ◌>>=◌, ◌>>◌, select, update_cameras, insert_health_event,
  insert_event, new_id, publish,
}
use ai_cctv_platform.Services.Notification.{audit}

pub record HealthUpdate : Type 0 where
  pub organization_id : String
  pub camera_id : String
  pub site_id : String
  pub status : CameraStatus
  pub detail : Option String
  pub resolution : Option String
  pub codec : Option String
  pub source_fps : Option ℕ
  pub increment_reconnect : Bool
  pub mark_frame : Bool
  pub mark_inference : Bool
  pub mark_connected : Bool
  pub actor_user_id : Option String

-- The event that a change of status calls for.
unfoldable pub transition : CameraStatus → CameraStatus → Option EventType
unfolding is_offline_status is_online
transition prev_status status =
    if not (is_offline_status prev_status) && is_offline_status status
    then some camera_offline
    else if is_offline_status prev_status && is_online status
    then some camera_recovered
    else none

abbrev pub is_lost : EventType → Bool
is_lost camera_offline = true
is_lost _ = false

-- `now` is now() of the transaction.
module _ (rt : Runtime) (now : ℕ) (ctx : TenantContext) (u : HealthUpdate) where
  unfoldable pub refresh_camera : Camera → Camera
  unfolding health_for
  refresh_camera c = record c {
    status = u.status;
    health = health_for u.status;
    resolution = or_else u.resolution c.resolution;
    codec = or_else u.codec c.codec;
    source_fps = or_else u.source_fps c.source_fps;
    reconnect_count = c.reconnect_count + (if u.increment_reconnect then 1 else 0);
    last_frame_at = if u.mark_frame then some now else c.last_frame_at;
    last_inference_at = if u.mark_inference then some now else c.last_inference_at;
    last_connected_at = if u.mark_connected then some now else c.last_connected_at;
    last_seen_at = some now;
    updated_at = now;
  }

  unfoldable pub select_camera : World → Option Camera
  unfolding select
  select_camera w =
      first (select (λ (r : Camera). r.organization_id) ctx (λ r. r.id == u.camera_id) w.cameras)

  -- The rows and the message of an emitted event.
  unfoldable pub emit : EventType → Handler (Unit {0})
  unfolding type_name health_for
  emit emitted = do
    insert_health_event ctx (record {
      organization_id = u.organization_id;
      camera_id = u.camera_id;
      status = u.status;
      health = health_for u.status;
      detail = u.detail;
    })
    event_id ← new_id rt
    insert_event ctx (record {
      id = event_id;
      organization_id = u.organization_id;
      site_id = u.site_id;
      camera_id = u.camera_id;
      ai_rule_id = none;
      event_type = emitted;
      severity = if is_lost emitted then high else info;
      confidence = 0;
      status = open_;
      correlation_id = none;
      metadata = rt.health_json u.status u.detail;
      occurred_at = now;
      updated_at = now;
    })
    audit ctx u.organization_id u.actor_user_id
        (if is_lost emitted then "camera.offline" else "camera.recovered") "camera"
        (some u.camera_id) none
    publish (record {
      organization_id = u.organization_id;
      kind = type_name emitted;
      payload = camera_state u.camera_id u.status (health_for u.status);
    })

  unfoldable pub emit_if : Option EventType → Handler (Option EventType)
  unfolding emit
  emit_if none = pure none
  emit_if (some emitted) = emit emitted >> pure (some emitted)

  unfoldable pub apply_to : Option Camera → Handler (Option EventType)
  unfolding refresh_camera transition emit_if
  apply_to none = pure none
  apply_to (some prior) =
      update_cameras ctx (λ r. r.id == u.camera_id) refresh_camera
      >> emit_if (transition prior.status u.status)

  -- What is emitted, if anything.
  unfoldable pub apply_health_update : Handler (Option EventType)
  unfolding select_camera apply_to
  apply_health_update = gets select_camera >>= λ prior. apply_to prior

-- A list of reports of one camera, each with the time of its transaction.
unfoldable pub apply_all :
    Runtime → TenantContext → List (ℕ × HealthUpdate) → Handler (List (Option EventType))
unfolding apply_health_update
apply_all rt ctx [] = pure []
apply_all rt ctx ((now, u) ∷ us) = apply_health_update rt now ctx u >>= λ emitted.
    apply_all rt ctx us >>= λ rest. pure (emitted ∷ rest)
