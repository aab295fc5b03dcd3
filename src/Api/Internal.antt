-- ===== src/Api/Internal.antt =====
-- server/src/routes/internal.routes.ts: what the media worker reports to the API. A request is let
-- in by its token and names the organization that the handle is bound to.
mod Examples
pub mod Token
pub mod Isolation
use Prim.Native.Char.{Char, code}
use Prim.Native.String
use ai_cctv_platform.Common.{
  ℕ, ◌+◌, String, Bool, true, false, ◌||◌, ◌&&◌, not, Option, none, some, List, [], ◌∷◌, ◌==◌, ◌⧺◌,
  eqb, coalesce, or_else, first, is_some, length, truthy, any, starts_with, if◌then◌else◌,
}
use ai_cctv_platform.Access.Errors.{unauthorized, forbidden}
use ai_cctv_platform.Access.Directory.{Checked, passes, fails}
use ai_cctv_platform.Access.Tokens.{timing_safe_equal}
use ai_cctv_platform.Ai.Types.{EventType, EventSeverity}
use ai_cctv_platform.Ai.Zone.{NumberOps, BBox}
use ai_cctv_platform.Ai.Schedule.{ScheduleRow, Moment}
use ai_cctv_platform.Ai.Rules.{RawClass, RawDetection, EvaluatedEvent, ZoneRow, evaluate_detection}
use ai_cctv_platform.Ai.Tracker.{Detection, TrackedDetection, SessionTracker, update_tracks}
use ai_cctv_platform.Ai.Engine.{DetectionSignal, DetectionResult, process_detection}
use ai_cctv_platform.Media.Status.{CameraStatus}
use ai_cctv_platform.Media.Health.{HealthUpdate, apply_health_update}
use ai_cctv_platform.Tenancy.World.{World, Runtime, Clock, Camera, InferenceStats}
use ai_cctv_platform.Tenancy.Rls.{
  TenantContext, Handler, Run, ok, err, pure, gets, ◌>>=◌, ◌>>◌, select, with_tenant, insert_stats,
  update_stats,
}
use ai_cctv_platform.Api.Rows.{require_camera}
use ai_cctv_platform.Api.Jobs.{worker_context}
use ai_cctv_platform.Api.Events.{decoded}

-- What follows a prefix of a text: `header.startsWith(p) ? header.slice(p.length) : ''`.
unfoldable pub after_prefix : String → String → String
after_prefix String.[] s = s
after_prefix (String.◌∷◌ p ps) String.[] = ""
after_prefix (String.◌∷◌ p ps) (String.◌∷◌ c s) =
    let rest = after_prefix ps s in if eqb (code p) (code c) then rest else ""

-- The gate before the routes. `expected` is the configured token.
unfoldable pub check_worker_token : Runtime → Option String → String → Checked (Unit {0})
unfolding after_prefix timing_safe_equal
check_worker_token rt header expected =
    let provided = after_prefix "Bearer " (coalesce header "") in
    if provided == "" || expected == ""
    then fails (unauthorized "Worker token required")
    else if not (eqb (length (rt.utf8 provided)) (length (rt.utf8 expected)))
        || not (timing_safe_equal (rt.utf8 provided) (rt.utf8 expected))
    then fails (forbidden "Invalid worker token")
    else passes tt

pub record DetectionJob (N : Type 0) : Type 0 where
  pub organization_id : String
  pub camera_id : String
  pub event_type : Option EventType
  pub raw_class : Option RawClass
  pub bbox : Option (BBox N)
  pub track_id : Option String
  pub dwell_ms : Option ℕ
  pub confidence : ℕ
  pub severity : Option EventSeverity
  pub duration_ms : Option ℕ
  pub metadata : String  -- as JSON
  pub snapshot_base64 : Option String

abbrev pub class_name : RawClass → String
class_name RawClass.person = "PERSON"
class_name RawClass.vehicle = "VEHICLE"
class_name RawClass.fire = "FIRE"
class_name RawClass.smoke = "SMOKE"

abbrev pub first_dwell : {N : Type 0} → List (TrackedDetection N) → ℕ
first_dwell [] = 0
first_dwell (d ∷ ds) = d.dwell_ms

-- What the rules read beside the state: zones, schedules and the time of the day.
pub record Surroundings (N : Type 0) : Type 0 where
  pub ops : NumberOps N
  pub zones : List (ZoneRow N)
  pub schedules : List ScheduleRow
  pub at_time : Moment

module _ {N : Type 0} (rt : Runtime) (clock : Clock) (env : Surroundings N)
    (job : DetectionJob N) where
  abbrev pub box_of : Option RawClass → Option (BBox N) → Option (RawClass × BBox N)
  box_of (some c) (some b) = some (c, b)
  box_of _ _ = none

  -- The tracker's answer on the one box of a job, and the tracker after.
  unfoldable pub tracked :
      Camera → RawClass × BBox N → SessionTracker N → List (TrackedDetection N) × SessionTracker N
  unfolding update_tracks
  tracked cam (c, b) tracker =
      update_tracks env.ops rt clock.date_now job.organization_id cam.id
        (record { label = class_name c; bbox = b } ∷ []) tracker

  unfoldable pub evaluated :
      TenantContext → Camera → RawClass × BBox N → SessionTracker N → World → List EvaluatedEvent
  unfolding tracked evaluate_detection
  evaluated db cam (c, b) tracker w =
      evaluate_detection env.ops db env.zones env.schedules env.at_time
        (record {
          raw_class = c;
          confidence = job.confidence;
          bbox = b;
          dwell_ms = some (coalesce job.dwell_ms (first_dwell ((tracked cam (c, b) tracker).0)));
        })
        cam.id w

  abbrev pub direct : Option EventType → List EvaluatedEvent
  direct none = []
  direct (some t) =
      record { event_type = t; confidence = job.confidence; zone_id = none; rule_id = none } ∷ []

  -- The events to raise: of the rules, or the one that the job names.
  abbrev pub candidates :
      TenantContext
      → Camera
      → Option (RawClass × BBox N)
      → SessionTracker N
      → World
      → List EvaluatedEvent
  candidates db cam none tracker w = direct job.event_type
  candidates db cam (some d) tracker w = evaluated db cam d tracker w

  unfoldable pub signal_of : Camera → EvaluatedEvent → DetectionSignal
  signal_of cam e = record {
    organization_id = job.organization_id;
    camera_id = cam.id;
    site_id = cam.site_id;
    event_type = e.event_type;
    confidence = e.confidence;
    severity = job.severity;
    duration_ms = job.duration_ms;
    ai_rule_id = none;
    metadata = some (rt.detection_json job.metadata e.zone_id e.rule_id job.track_id);
    snapshot = decoded rt (truthy job.snapshot_base64);
    actor_user_id = none;
    ip = none;
  }

  -- The loop over the events; the first that throws ends it.
  unfoldable pub raise_all :
      TenantContext → Camera → List EvaluatedEvent → Handler (List DetectionResult)
  unfolding process_detection signal_of
  raise_all db cam [] = pure []
  raise_all db cam (e ∷ es) = process_detection rt clock db (signal_of cam e) >>= λ r.
      raise_all db cam es >>= λ rs. pure (r ∷ rs)

  unfoldable pub run_detections : SessionTracker N → TenantContext → Handler (List DetectionResult)
  unfolding require_camera evaluated raise_all
  run_detections tracker db = require_camera db job.camera_id >>= λ cam.
      gets (candidates db cam (box_of job.raw_class job.bbox) tracker) >>= λ es. raise_all db cam es

  abbrev pub tracker_after :
      Run Camera → Option (RawClass × BBox N) → SessionTracker N → SessionTracker N
  tracker_after (ok cam w) (some d) tracker = (tracked cam d tracker).1
  tracker_after _ _ tracker = tracker

  -- POST /detections. The tracker is the module's own: a rollback leaves it as updated.
  unfoldable pub submit_detections :
      SessionTracker N → World → Run (List DetectionResult) × SessionTracker N
  unfolding worker_context with_tenant run_detections require_camera tracked
  submit_detections tracker w =
      let db = worker_context job.organization_id in
      (
        with_tenant db (run_detections tracker) w,
        tracker_after (require_camera db job.camera_id w) (box_of job.raw_class job.bbox) tracker,
      )

-- POST /camera-health; `job` is the report as it was parsed.
unfoldable pub health_update : HealthUpdate → Camera → HealthUpdate
health_update job cam = record job {
  camera_id = cam.id;
  site_id = cam.site_id;
  actor_user_id = none;
}

unfoldable pub run_health :
    Runtime → Clock → HealthUpdate → TenantContext → Handler (Option EventType)
unfolding require_camera health_update apply_health_update
run_health rt clock job db = require_camera db job.camera_id >>= λ cam.
    apply_health_update rt clock.db_now db (health_update job cam)

unfoldable pub report_health : Runtime → Clock → HealthUpdate → Handler (Option EventType)
unfolding worker_context with_tenant run_health
report_health rt clock job =
    with_tenant (worker_context job.organization_id) (run_health rt clock job)

pub record StatsJob : Type 0 where
  pub organization_id : String
  pub camera_id : String
  pub frames_processed : ℕ
  pub detections : ℕ
  pub inference_failures : ℕ
  pub avg_latency_ms : ℕ  -- in hundredths
  pub model : Option String
  pub model_version : Option String

module _ (clock : Clock) (job : StatsJob) where
  unfoldable pub new_stats : InferenceStats
  new_stats = record {
    organization_id = job.organization_id;
    camera_id = job.camera_id;
    frames_processed = job.frames_processed;
    detections_total = job.detections;
    inference_failures = job.inference_failures;
    avg_latency_ms = job.avg_latency_ms;
    last_model = job.model;
    last_model_version = job.model_version;
    updated_at = clock.db_now;
  }

  unfoldable pub add_stats : InferenceStats → InferenceStats
  add_stats r = record r {
    frames_processed = r.frames_processed + job.frames_processed;
    detections_total = r.detections_total + job.detections;
    inference_failures = r.inference_failures + job.inference_failures;
    avg_latency_ms = job.avg_latency_ms;
    last_model = or_else job.model r.last_model;
    last_model_version = or_else job.model_version r.last_model_version;
    updated_at = clock.db_now;
  }

  unfoldable pub select_stats : TenantContext → World → Option InferenceStats
  unfolding select
  select_stats db w = first (
      select (λ (r : InferenceStats). r.organization_id) db (λ r. r.camera_id == job.camera_id)
        w.stats)

  -- INSERT … ON CONFLICT (camera_id) DO UPDATE; the row in conflict is of the camera's organization.
  unfoldable pub upsert_stats : TenantContext → Handler (Unit {0})
  unfolding select_stats add_stats new_stats
  upsert_stats db = gets (select_stats db) >>= λ old.
      if is_some old
      then update_stats db (λ r. r.camera_id == job.camera_id) add_stats
      else insert_stats db new_stats

  unfoldable pub run_stats : TenantContext → Handler (Unit {0})
  unfolding require_camera upsert_stats
  run_stats db = require_camera db job.camera_id >>= λ cam. upsert_stats db

  -- POST /inference-stats.
  unfoldable pub report_stats : Handler (Unit {0})
  unfolding worker_context with_tenant run_stats
  report_stats = with_tenant (worker_context job.organization_id) run_stats
