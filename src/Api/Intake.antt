-- ===== src/Api/Intake.antt =====
-- An event as it comes in from a request (server/src/routes/events.routes.ts) or a job
-- (server/src/jobs/worker.ts): one row per correlation id, its snapshot and its notifications.
pub mod Once
use ai_cctv_platform.Common.{
  ℕ, String, Bool, true, false, ◌&&◌, Option, none, some, List, ◌==◌, ◌⧺◌, coalesce, first, any,
  truthy, if◌then◌else◌,
}
use ai_cctv_platform.Access.Errors.{other}
use ai_cctv_platform.Ai.Types.{EventType, EventSeverity, medium, open_}
use ai_cctv_platform.Tenancy.World.{World, Runtime, Clock, Camera, Event}
use ai_cctv_platform.Tenancy.Rls.{
  TenantContext, Handler, pure, throw, gets, ◌>>=◌, ◌>>◌, select, new_id, insert_event,
}
use ai_cctv_platform.Services.Storage.{build_evidence_key}
use ai_cctv_platform.Services.Evidence.{store_evidence}

-- An event before it is stored.
pub record Intake : Type 0 where
  pub organization_id : String
  pub event_type : EventType
  pub confidence : ℕ
  pub severity : Option EventSeverity
  pub correlation_id : Option String
  pub metadata : String  -- as JSON
  pub snapshot : Option String

unfoldable pub severity_or_medium : Intake → EventSeverity
severity_or_medium input = coalesce input.severity medium

abbrev pub same_correlation : String → Option String → Bool
same_correlation c none = false
same_correlation c (some d) = d == c

-- The unique index on (organization_id, correlation_id) WHERE correlation_id IS NOT NULL.
unfoldable pub is_duplicate : String → Option String → List Event → Bool
is_duplicate org none events = false
is_duplicate org (some c) events =
    any (λ (r : Event). r.organization_id == org && same_correlation c r.correlation_id) events

module _ (rt : Runtime) (clock : Clock) (db : TenantContext) (cam : Camera) (input : Intake) where
  unfoldable pub new_event : String → Event
  unfolding severity_or_medium
  new_event id = record {
    id = id;
    organization_id = input.organization_id;
    site_id = cam.site_id;
    camera_id = cam.id;
    ai_rule_id = none;
    event_type = input.event_type;
    severity = severity_or_medium input;
    confidence = input.confidence;
    status = open_;
    correlation_id = input.correlation_id;
    metadata = input.metadata;
    occurred_at = clock.db_now;
    updated_at = clock.db_now;
  }

  -- INSERT … ON CONFLICT DO NOTHING RETURNING id.
  unfoldable pub insert_once : Handler (Option String)
  unfolding is_duplicate new_event new_id
  insert_once = new_id rt >>= λ id.
      gets (λ w. is_duplicate input.organization_id input.correlation_id w.events) >>= λ duplicate.
      if duplicate then pure none else insert_event db (new_event id) >> pure (some id)

  unfoldable pub correlated : String → World → Option Event
  unfolding select
  correlated c w = first (
      select (λ (r : Event). r.organization_id) db (λ r. same_correlation c r.correlation_id)
        w.events)

  abbrev pub id_or_throw : String → Option Event → Handler String
  id_or_throw failure none = throw (other failure)
  id_or_throw failure (some r) = pure r.id

  abbrev pub existing_or_throw : String → Option String → Handler String
  existing_or_throw failure none = throw (other failure)
  existing_or_throw failure (some c) = gets (correlated c) >>= λ r. id_or_throw failure r

  abbrev pub inserted_or_existing : String → Option String → Handler String
  inserted_or_existing failure (some id) = pure id
  inserted_or_existing failure none = existing_or_throw failure (truthy input.correlation_id)

  -- The id of the event: the new one, or the one stored under the correlation id.
  unfoldable pub record_event : String → Handler String
  unfolding insert_once correlated
  record_event failure = insert_once >>= λ id. inserted_or_existing failure id

  abbrev pub keep_content : String → String → Option String → Handler (Unit {0})
  keep_content event_id filename none = pure tt
  keep_content event_id filename (some content) =
      store_evidence rt db input.organization_id event_id
        (build_evidence_key input.organization_id cam.site_id cam.id event_id filename) content

  -- The snapshot, where there is one, under a name that carries the time.
  unfoldable pub keep_snapshot : String → String → Handler (Unit {0})
  unfolding store_evidence
  keep_snapshot event_id prefix =
      keep_content event_id (prefix ⧺ rt.decimal clock.file_now ⧺ ".jpg") input.snapshot
