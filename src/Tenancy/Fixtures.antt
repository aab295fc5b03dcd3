-- ===== src/Tenancy/Fixtures.antt =====
-- Concrete states for the tests.
use ai_cctv_platform.Common.{◌≡◌, refl, true, false, none, some, [], ◌∷◌, arith, eq_iff, ℕ}
use ai_cctv_platform.Tenancy.World.{World, Runtime, Clock, Camera}
use ai_cctv_platform.Media.Status.{CameraStatus, CameraHealth}
use ai_cctv_platform.Tenancy.Rls.{TenantContext, org_visible}
use ai_cctv_platform.Tenancy.Isolation.Statements.{BoundElsewhere}

abbrev pub camera_at : CameraStatus → Camera
camera_at s = record {
  id = "c1";
  organization_id = "a";
  site_id = "s1";
  zone_id = none;
  name = "Gate";
  rtsp_host = none;
  rtsp_path = none;
  rtsp_port = 554;
  onvif_endpoint = none;
  stream_profile = "main";
  enabled = true;
  inference_enabled = false;
  inference_fps = 200;
  source_kind = "RTSP";
  status = s;
  health = CameraHealth.unknown;
  resolution = none;
  codec = none;
  source_fps = none;
  reconnect_count = 0;
  last_frame_at = none;
  last_inference_at = none;
  last_connected_at = none;
  last_seen_at = none;
  updated_at = 0;
}

abbrev pub world_with : CameraStatus → World
world_with s = record {
  cameras = camera_at s ∷ [];
  ai_rules = [];
  events = [];
  cooldowns = [];
  evidence = [];
  notification_rules = [];
  notifications = [];
  audit_logs = [];
  health_events = [];
  sites = [];
  zones = [];
  credentials = [];
  subscriptions = [];
  members = [];
  notes = [];
  stats = [];
  users = [];
  objects = [];
  published = [];
  issued = 0;
}

abbrev pub runtime : Runtime
runtime = record {
  uuid = λ n. "e1";
  decimal = λ n. "7";
  lower = λ s. s;
  trim = λ s. s;
  before_at = λ s. s;
  from_base64 = λ s. s;
  short_uuid = λ n. "u";
  utf8 = λ s. [];
  detection_json = λ m z r t. m;
  hash_random = λ n. "h";
  key_length = 32;
  iv64 = λ n. "iv";
  seal = λ i s. ("t", s);
  unseal = λ i t c. some c;
  health_json = λ s d. "{}";
}

abbrev pub clock_at : ℕ → Clock
clock_at now = record { date_now = now; db_now = now; file_now = now }

abbrev pub tenant_a : TenantContext
tenant_a = record { user_id = "u1"; organization_id = "a"; is_platform_admin = false }

pub sees_a : org_visible tenant_a "a" ≡ true
unfolding org_visible
sees_a = refl

pub bound_to_a : BoundElsewhere tenant_a "b"
bound_to_a = record { scoped = refl; apart = ground (arith, eq_iff "a" "b") }
