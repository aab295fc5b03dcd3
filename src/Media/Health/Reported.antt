-- ===== src/Media/Health/Reported.antt =====
-- What one report of a camera's health does, said without the code's own functions.
use ai_cctv_platform.Common.{ℕ, ◌+◌, ◌≡◌, true, false, Option, some, ◌↔◌, ◌⊎◌, length}
use ai_cctv_platform.Ai.Types.{EventType, camera_offline, camera_recovered}
use ai_cctv_platform.Media.Status.{CameraStatus, CameraHealth}
use ai_cctv_platform.Media.Health.{HealthUpdate, select_camera}
use ai_cctv_platform.Media.Health.Emitted.{EmittedAs}
use ai_cctv_platform.Media.Health.Transitions.{rows_for}
use ai_cctv_platform.Tenancy.World.{World, Runtime, Camera}
use ai_cctv_platform.Tenancy.Rls.{TenantContext, org_visible}
use ai_cctv_platform.Media.Health.Decisions.{IsDown, Marked, Refreshed}

module _ (rt : Runtime) (now : ℕ) (ctx : TenantContext) (u : HealthUpdate)
    (visible : org_visible ctx u.organization_id ≡ true) where
  -- The row of the camera after the report.
  pub record IsRefreshed (prior row : Camera) : Type 0 where
    pub id : row.id ≡ prior.id
    pub organization_id : row.organization_id ≡ prior.organization_id
    pub enabled : row.enabled ≡ prior.enabled
    pub status : row.status ≡ u.status
    pub healthy : (row.health ≡ CameraHealth.healthy) ↔ (u.status ≡ CameraStatus.online)
    pub unhealthy : (row.health ≡ CameraHealth.unhealthy) ↔ IsDown u.status
    pub reconnected : u.increment_reconnect ≡ true → row.reconnect_count ≡ prior.reconnect_count + 1
    pub steady : u.increment_reconnect ≡ false → row.reconnect_count ≡ prior.reconnect_count
    pub frame : Marked now u.mark_frame prior.last_frame_at row.last_frame_at
    pub inference : Marked now u.mark_inference prior.last_inference_at row.last_inference_at
    pub connected : Marked now u.mark_connected prior.last_connected_at row.last_connected_at
    pub seen : row.last_seen_at ≡ some now
    pub resolution : Refreshed u.resolution prior.resolution row.resolution
    pub codec : Refreshed u.codec prior.codec row.codec
    pub source_fps : Refreshed u.source_fps prior.source_fps row.source_fps

  -- The outcome of a report on a camera whose row was `prior`.
  pub record Reported (prior : Camera) (w : World) (emitted : Option EventType) (w' : World)
      : Type 0 where
    pub lost : (emitted ≡ some camera_offline) ↔ ((IsDown prior.status → ⊥) × IsDown u.status)
    pub recovered :
        (emitted ≡ some camera_recovered) ↔ (IsDown prior.status × (u.status ≡ CameraStatus.online))
    pub nothing_else :
        (t : EventType) → emitted ≡ some t → (t ≡ camera_offline) ⊎ (t ≡ camera_recovered)
    pub row : Camera
    pub found : select_camera rt now ctx u w' ≡ some row
    pub refreshed : IsRefreshed prior row
    pub health_events : length w'.health_events ≡ length w.health_events + rows_for emitted
    pub events : length w'.events ≡ length w.events + rows_for emitted
    pub audit_logs : length w'.audit_logs ≡ length w.audit_logs + rows_for emitted
    pub published : length w'.published ≡ length w.published + rows_for emitted
    pub emits : (t : EventType) → emitted ≡ some t → EmittedAs rt now ctx u visible t w w'
