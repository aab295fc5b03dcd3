-- ===== src/Media/Health/Examples.antt =====
-- Tests of the health reports, and their theorems at concrete inputs.
use ai_cctv_platform.Common.{◌≡◌, refl, true, false, none, some, [], ◌∷◌}
use ai_cctv_platform.Ai.Types.{camera_offline, camera_recovered}
use ai_cctv_platform.Media.Status.{CameraStatus, is_offline_status}
use ai_cctv_platform.Tenancy.Triples.{Yields}
use ai_cctv_platform.Tenancy.Fixtures.{camera_at, world_with, runtime, tenant_a, sees_a}
use ai_cctv_platform.Media.Health.{HealthUpdate, select_camera, apply_all}
use ai_cctv_platform.Media.Health.Reported.{Reported}
use ai_cctv_platform.Media.Health.Flapping.{emitted, seen_as, apply_all-outage}

abbrev pub report : CameraStatus → HealthUpdate
report s = record {
  organization_id = "a";
  camera_id = "c1";
  site_id = "s1";
  status = s;
  detail = none;
  resolution = none;
  codec = none;
  source_fps = none;
  increment_reconnect = false;
  mark_frame = false;
  mark_inference = false;
  mark_connected = false;
  actor_user_id = none;
}

pub known_camera :
    (s : CameraStatus)
    → seen_as runtime tenant_a (report CameraStatus.online) (world_with s) ≡ some (camera_at s)
unfolding select_camera
known_camera s = refl

pub online_is_up : is_offline_status CameraStatus.online ≡ false
unfolding is_offline_status
online_is_up = refl

is_down : is_offline_status CameraStatus.offline ≡ true
unfolding is_offline_status
is_down = refl

is_down_too : is_offline_status CameraStatus.auth_failed ≡ true
unfolding is_offline_status
is_down_too = refl

apply_all-outage_example :
    Yields
      (apply_all runtime tenant_a
        ((1, report CameraStatus.offline) ∷ (2, report CameraStatus.auth_failed) ∷ []))
      (world_with CameraStatus.online)
      (λ es _. (emitted camera_offline es ≡ 1) × (emitted camera_recovered es ≡ 0))
apply_all-outage_example =
    apply_all-outage runtime tenant_a (report CameraStatus.online) sees_a
      ((1, report CameraStatus.offline) ∷ (2, report CameraStatus.auth_failed) ∷ [])
      (camera_at CameraStatus.online) (world_with CameraStatus.online)
      ((refl, refl), ((refl, refl), tt)) (known_camera CameraStatus.online) online_is_up
      CameraStatus.offline (CameraStatus.auth_failed ∷ []) refl is_down (is_down_too, tt)
