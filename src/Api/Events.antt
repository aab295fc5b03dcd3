-- ===== src/Api/Events.antt =====
-- server/src/routes/events.routes.ts: an event's status, its notes and its evidence, and events
-- that come in.
use ai_cctv_platform.Common.{ℕ, ◌+◌, ◌/◌, String, ◌&&◌, Option, none, some, ◌==◌, first, truthy}
use ai_cctv_platform.Access.Directory.{Primitives}
use ai_cctv_platform.Access.Tokens.{SignedUrlParams, sign_storage_token}
use ai_cctv_platform.Ai.Types.{EventType, EventSeverity, EventStatus}
use ai_cctv_platform.Ai.Engine.{DetectionResult, process_detection}
use ai_cctv_platform.Tenancy.World.{World, Runtime, Clock, Event, IncidentNote, Evidence, ingested}
use ai_cctv_platform.Tenancy.Rls.{
  TenantContext, Handler, pure, gets, ◌>>=◌, ◌>>◌, select, new_id, insert_note, update_events,
  publish,
}
use ai_cctv_platform.Services.Notification.{dispatch_notifications, audit}
use ai_cctv_platform.Api.Rows.{returning, require_event, require_camera}
use ai_cctv_platform.Api.Sites.{Caller}
use ai_cctv_platform.Api.Intake.{Intake, severity_or_medium, record_event, keep_snapshot}

pub record IngestInput : Type 0 where
  pub camera_id : String
  pub event_type : EventType
  pub confidence : ℕ
  pub severity : Option EventSeverity
  pub correlation_id : Option String
  pub duration_ms : Option ℕ
  pub metadata : String
  pub snapshot_base64 : Option String

-- What a request that brings an event in is answered.
pub record Created : Type 0 where
  pub id : String
  pub event_type : EventType
  pub severity : EventSeverity
  pub camera_id : String
  pub notified : ℕ

-- `URLSearchParams` of the four parameters is left to the caller.
pub record SignedUrl : Type 0 where
  pub params : SignedUrlParams
  pub sig : String

-- `signEvidenceUrl`.
unfoldable pub sign_evidence_url : Primitives → String → ℕ → ℕ → String → String → SignedUrl
unfolding sign_storage_token
sign_evidence_url prims key now_ms ttl organization_id storage_key =
    let params : SignedUrlParams = record {
      organization_id = organization_id;
      storage_key = storage_key;
      expires_at = now_ms / 1000 + ttl;
    } in
    record { params = params; sig = sign_storage_token prims key params }

abbrev pub decoded : Runtime → Option String → Option String
decoded rt none = none
decoded rt (some s) = some (rt.from_base64 s)

module _ (rt : Runtime) (clock : Clock) (db : TenantContext) (caller : Caller) where
  unfoldable pub set_status : EventStatus → Event → Event
  set_status status r = record r { status = status; updated_at = clock.db_now }

  unfoldable pub update_status : String → EventStatus → Handler (Option Event)
  unfolding require_event set_status returning
  update_status id status = do
    _ ← require_event db id
    update_events db (λ r. r.id == id) (set_status status)
    row ← gets (returning (λ r. r.organization_id) (λ r. r.id) "events" (λ w. w.events) db id)
    audit db caller.organization_id none "event.status" "event" (some id) caller.ip
    pure row

  unfoldable pub add_note : String → String → Handler IncidentNote
  unfolding require_event
  add_note event_id note = do
    _ ← require_event db event_id
    id ← new_id rt
    let row : IncidentNote = record {
      id = id;
      organization_id = caller.organization_id;
      event_id = event_id;
      author_id = caller.user_id;
      note = note;
    }
    insert_note db row
    audit db caller.organization_id (some caller.user_id) "incident.note" "event" (some event_id)
        caller.ip
    pure row

  unfoldable pub select_evidence : String → String → World → Option Evidence
  unfolding select
  select_evidence event_id evidence_id w = first (
      select (λ (r : Evidence). r.organization_id) db
        (λ r. r.id == evidence_id && r.event_id == event_id) w.evidence)

  abbrev pub signed_or_none : Primitives → String → ℕ → Option Evidence → Option SignedUrl
  signed_or_none prims key ttl none = none
  signed_or_none prims key ttl (some row) =
      some (sign_evidence_url prims key clock.date_now ttl caller.organization_id row.storage_key)

  -- `key` signs URLs that last `ttl` seconds.
  unfoldable pub evidence_url :
      Primitives → String → ℕ → String → String → Handler (Option SignedUrl)
  unfolding require_event select_evidence sign_evidence_url
  evidence_url prims key ttl event_id evidence_id = do
    _ ← require_event db event_id
    row ← gets (select_evidence event_id evidence_id)
    pure (signed_or_none prims key ttl row)

  -- The transaction of a detection for the engine.
  unfoldable pub ingest_safety : IngestInput → Handler DetectionResult
  unfolding require_camera process_detection
  ingest_safety input = do
    cam ← require_camera db input.camera_id
    process_detection rt clock db (record {
      organization_id = caller.organization_id;
      camera_id = cam.id;
      site_id = cam.site_id;
      event_type = input.event_type;
      confidence = input.confidence;
      severity = input.severity;
      duration_ms = input.duration_ms;
      ai_rule_id = none;
      metadata = some input.metadata;
      snapshot = decoded rt (truthy input.snapshot_base64);
      actor_user_id = some caller.user_id;
      ip = caller.ip;
    })

  abbrev pub intake : IngestInput → Intake
  intake input = record {
    organization_id = caller.organization_id;
    event_type = input.event_type;
    confidence = input.confidence;
    severity = input.severity;
    correlation_id = input.correlation_id;
    metadata = input.metadata;
    snapshot = decoded rt (truthy input.snapshot_base64);
  }

  -- The transaction of the other events.
  unfoldable pub ingest_base : IngestInput → Handler Created
  unfolding require_camera severity_or_medium record_event keep_snapshot dispatch_notifications
  ingest_base input = do
    cam ← require_camera db input.camera_id
    event_id ← record_event rt clock db cam (intake input) "Failed to create event"
    keep_snapshot rt clock db cam (intake input) event_id "snapshot-"
    notified ←
        dispatch_notifications db caller.organization_id event_id
          (severity_or_medium (intake input)) input.event_type
    audit db caller.organization_id (some caller.user_id) "event.ingest" "event" (some event_id)
        caller.ip
    pure (record {
      id = event_id;
      event_type = input.event_type;
      severity = severity_or_medium (intake input);
      camera_id = cam.id;
      notified = notified;
    })

-- The message that follows the transaction of the other events.
unfoldable pub announce : String → Created → Handler (Unit {0})
announce organization_id created = publish (record {
  organization_id = organization_id;
  kind = "event.created";
  payload =
      ingested created.id created.event_type created.severity created.camera_id created.notified;
})
