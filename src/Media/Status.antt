-- ===== src/Media/Status.antt =====
-- The camera states of server/src/media/health.service.ts.
use ai_cctv_platform.Common.{Bool, true, false}

pub data CameraStatus : Type 0 where
  online offline connecting reconnecting degraded auth_failed invalid_stream disabled : CameraStatus
  unknown : CameraStatus

pub data CameraHealth : Type 0 where
  healthy degraded unhealthy unknown : CameraHealth

unfoldable pub health_for : CameraStatus → CameraHealth
health_for CameraStatus.online = CameraHealth.healthy
health_for CameraStatus.degraded = CameraHealth.degraded
health_for CameraStatus.connecting = CameraHealth.degraded
health_for CameraStatus.reconnecting = CameraHealth.degraded
health_for CameraStatus.offline = CameraHealth.unhealthy
health_for CameraStatus.auth_failed = CameraHealth.unhealthy
health_for CameraStatus.invalid_stream = CameraHealth.unhealthy
health_for _ = CameraHealth.unknown

-- `OFFLINE_STATUSES.has(s)`.
unfoldable pub is_offline_status : CameraStatus → Bool
is_offline_status CameraStatus.offline = true
is_offline_status CameraStatus.auth_failed = true
is_offline_status CameraStatus.invalid_stream = true
is_offline_status _ = false

unfoldable pub is_online : CameraStatus → Bool
is_online CameraStatus.online = true
is_online _ = false
