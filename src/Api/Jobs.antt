-- ===== src/Api/Jobs.antt =====
-- server/src/jobs/worker.ts: `processAiJob`, a detection that comes from the queue. The job names its
-- organization, and the handle is bound to it.
pub mod Once
use ai_cctv_platform.Common.{
  ℕ, String, Bool, false, Option, none, some, ◌==◌, coalesce, first, if◌then◌else◌,
}
use ai_cctv_platform.Access.Errors.{not_found}
use ai_cctv_platform.Ai.Types.{EventType, EventSeverity, is_safety_security_type}
use ai_cctv_platform.Ai.Engine.{DetectionSignal, process_detection}
use ai_cctv_platform.Tenancy.World.{World, Runtime, Clock, Camera, incident}
use ai_cctv_platform.Tenancy.Rls.{
  TenantContext, Handler, pure, throw, gets, ◌>>=◌, ◌>>◌, select, with_tenant, publish,
}
use ai_cctv_platform.Services.Notification.{dispatch_notifications}
use ai_cctv_platform.Api.Intake.{Intake, severity_or_medium, record_event, keep_snapshot}

pub record AiJob : Type 0 where
  pub organization_id : String
  pub camera_id : String
  pub event_type : EventType
  pub confidence : ℕ
  pub severity : Option EventSeverity
  pub correlation_id : Option String
  pub duration_ms : Option ℕ
  pub snapshot : Option String
  pub metadata : Option String

pub record JobResult : Type 0 where
  pub event_id : String
  pub organization_id : String
  pub camera_id : String
  pub notified : ℕ

-- The context that the background parts of the server bind a handle to.
unfoldable pub worker_context : String → TenantContext
worker_context organization_id = record {
  user_id = "";
  organization_id = organization_id;
  is_platform_admin = false;
}

module _ (rt : Runtime) (clock : Clock) (job : AiJob) where
  unfoldable pub select_job_camera : TenantContext → World → Option Camera
  unfolding select
  select_job_camera db w =
      first (select (λ (r : Camera). r.organization_id) db (λ r. r.id == job.camera_id) w.cameras)

  unfoldable pub job_signal : Camera → DetectionSignal
  job_signal cam = record {
    organization_id = job.organization_id;
    camera_id = cam.id;
    site_id = cam.site_id;
    event_type = job.event_type;
    confidence = job.confidence;
    severity = job.severity;
    duration_ms = job.duration_ms;
    ai_rule_id = none;
    metadata = job.metadata;
    snapshot = job.snapshot;
    actor_user_id = none;
    ip = none;
  }

  unfoldable pub job_intake : Intake
  job_intake = record {
    organization_id = job.organization_id;
    event_type = job.event_type;
    confidence = job.confidence;
    severity = job.severity;
    correlation_id = job.correlation_id;
    metadata = coalesce job.metadata "{}";
    snapshot = job.snapshot;
  }

  unfoldable pub job_result : Camera → String → ℕ → JobResult
  job_result cam event_id notified = record {
    event_id = event_id;
    organization_id = job.organization_id;
    camera_id = cam.id;
    notified = notified;
  }

  unfoldable pub run_engine : TenantContext → Camera → Handler JobResult
  unfolding process_detection job_signal job_result
  run_engine db cam = process_detection rt clock db (job_signal cam) >>= λ result.
      pure (job_result cam result.event_id result.notified)

  unfoldable pub run_base : TenantContext → Camera → Handler JobResult
  unfolding job_intake severity_or_medium record_event keep_snapshot dispatch_notifications
      job_result
  run_base db cam = do
    event_id ← record_event rt clock db cam job_intake "Failed to create event from job"
    keep_snapshot rt clock db cam job_intake event_id "job-snapshot-"
    notified ←
        dispatch_notifications db job.organization_id event_id (severity_or_medium job_intake)
          job.event_type
    publish (record {
      organization_id = job.organization_id;
      kind = "event.created";
      payload = incident event_id job.event_type (severity_or_medium job_intake) cam.id;
    })
    pure (job_result cam event_id notified)

  abbrev pub run_on : TenantContext → Option Camera → Handler JobResult
  run_on db none = throw (not_found "Job references a camera not owned by its organization")
  run_on db (some cam) =
      if is_safety_security_type job.event_type then run_engine db cam else run_base db cam

  -- The callback of `withTenant`.
  unfoldable pub run_job : TenantContext → Handler JobResult
  unfolding select_job_camera run_engine run_base is_safety_security_type
  run_job db = gets (select_job_camera db) >>= λ cam. run_on db cam

  unfoldable pub process_ai_job : Handler JobResult
  unfolding worker_context with_tenant run_job
  process_ai_job = with_tenant (worker_context job.organization_id) run_job
