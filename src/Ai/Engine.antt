-- ===== src/Ai/Engine.antt =====
-- server/src/ai/engine.ts: `processDetection`, from a validated detection to an incident.
-- `ctx` stands for the tenant-bound handle `db`. A statement is a step of its own, in the order
-- of the source; an upsert is an update or an insert by whether the row is there.
pub mod Isolation
mod Examples
pub mod Steps
pub mod Alerts
pub mod Silence
pub mod Incidents
use ai_cctv_platform.Common.{
  ℕ, ◌+◌, ◌*◌, ◌-◌, max, Bool, true, false, ◌&&◌, ◌||◌, not, String, ◌==◌, Option, some, none, List,
  [], ◌∷◌, if◌then◌else◌, ltb, leb, coalesce, or_else, is_some, first, ◌⧺◌,
}
use ai_cctv_platform.Access.Errors.{other}
use ai_cctv_platform.Ai.Types.{
  EventType, EventSeverity, EventStatus, type_eq, is_fire_type, default_severity, type_name, fire,
  smoke, fire_and_smoke, unauthorized_entry, after_hours_activity, object_removed,
  unauthorized_vehicle, restricted_zone_activity, loitering_security, medium, critical, open_,
}
use ai_cctv_platform.Tenancy.World.{World, Runtime, Clock, AiRule, Event, Cooldown, incident}
use ai_cctv_platform.Tenancy.Rls.{
  TenantContext, Handler, pure, throw, gets, when, ◌>>=◌, ◌>>◌, select, insert_event,
  insert_evidence, insert_cooldown, update_events, update_cooldowns, new_id, put_object, publish,
}
use ai_cctv_platform.Services.Storage.{build_evidence_key}
use ai_cctv_platform.Services.Evidence.{store_evidence}
use ai_cctv_platform.Services.Notification.{dispatch_notifications, audit}

pub record DetectionSignal : Type 0 where
  pub organization_id : String
  pub camera_id : String
  pub site_id : String
  pub event_type : EventType
  pub confidence : ℕ
  pub severity : Option EventSeverity
  pub duration_ms : Option ℕ
  pub ai_rule_id : Option String
  pub metadata : Option String
  pub snapshot : Option String
  pub actor_user_id : Option String
  pub ip : Option String

pub record DetectionResult : Type 0 where
  pub event_id : String
  pub event_type : EventType
  pub severity : EventSeverity
  pub camera_id : String
  pub created : Bool
  pub alerted : Bool
  pub notified : ℕ
  pub upgraded_to_fire_and_smoke : Bool

abbrev pub fire_smoke_correlation_window_ms : ℕ
fire_smoke_correlation_window_ms = 60_000

unfoldable pub cooldown_key : String → EventType → String
unfolding is_fire_type type_name
cooldown_key camera_id event_type =
    camera_id ⧺ ":" ⧺ (if is_fire_type event_type then "FIRE_SAFETY" else type_name event_type)

-- ORDER BY updated_at DESC LIMIT 1.
unfoldable pub latest : List AiRule → Option AiRule
latest [] = none
latest (r ∷ rs) = elim (latest rs) [
  | none ↦ some r
  | some s ↦ some (if ltb r.updated_at s.updated_at then s else r)
]

unfoldable pub find_rule : TenantContext → String → EventType → World → Option AiRule
unfolding latest select type_eq
find_rule ctx camera_id event_type w = latest (
    select (λ (r : AiRule). r.organization_id) ctx
      (λ r. r.camera_id == camera_id && type_eq r.rule_type event_type) w.ai_rules)

unfoldable pub no_result : DetectionSignal → DetectionResult
no_result signal = record {
  event_id = "";
  event_type = signal.event_type;
  severity = coalesce signal.severity medium;
  camera_id = signal.camera_id;
  created = false;
  alerted = false;
  notified = 0;
  upgraded_to_fire_and_smoke = false;
}

unfoldable pub realtime_type_for : EventType → String
realtime_type_for fire = "FIRE_DETECTED"
realtime_type_for smoke = "SMOKE_DETECTED"
realtime_type_for fire_and_smoke = "FIRE_SMOKE_CRITICAL"
realtime_type_for unauthorized_entry = "UNAUTHORIZED_ENTRY"
realtime_type_for after_hours_activity = "AFTER_HOURS_ACTIVITY"
realtime_type_for object_removed = "OBJECT_REMOVED"
realtime_type_for unauthorized_vehicle = "UNAUTHORIZED_VEHICLE"
realtime_type_for restricted_zone_activity = "RESTRICTED_ZONE_ACTIVITY"
realtime_type_for loitering_security = "RESTRICTED_ZONE_ACTIVITY"
realtime_type_for _ = "event.created"

-- The two tests before the cooldown: a rule's thresholds, where there is a rule.
unfoldable pub is_below_threshold : Option AiRule → DetectionSignal → Bool
is_below_threshold none signal = ltb signal.confidence 0
is_below_threshold (some rule) signal =
    ltb signal.confidence rule.min_confidence
    || ltb 0 rule.min_duration_ms && ltb (coalesce signal.duration_ms 0) rule.min_duration_ms

abbrev pub rule_enabled : Option AiRule → Bool
rule_enabled none = true
rule_enabled (some rule) = rule.enabled

abbrev pub severity_of : Option AiRule → DetectionSignal → EventSeverity
severity_of none signal =
    coalesce (or_else signal.severity (default_severity signal.event_type)) medium
severity_of (some rule) signal = coalesce signal.severity rule.severity

abbrev pub cooldown_seconds_of : Option AiRule → ℕ
cooldown_seconds_of none = 30
cooldown_seconds_of (some rule) = rule.cooldown_seconds

abbrev pub rule_id_of : Option AiRule → Option String
rule_id_of none = none
rule_id_of (some rule) = some rule.id

-- The event of a cooldown that has not run out.
unfoldable pub active_event : ℕ → Option Cooldown → Option String
active_event now none = none
active_event now (some cd) = if ltb now cd.expires_at then cd.event_id else none

unfoldable pub is_complementary : EventType → EventType → Bool
unfolding type_eq
is_complementary row signal =
    type_eq row fire && type_eq signal smoke || type_eq row smoke && type_eq signal fire

unfoldable pub should_upgrade : ℕ → DetectionSignal → Option Event → Bool
unfolding is_complementary
should_upgrade now signal none = false
should_upgrade now signal (some row) =
    is_complementary row.event_type signal.event_type
    && leb (now - row.occurred_at) fire_smoke_correlation_window_ms
    && not (type_eq row.event_type fire_and_smoke)

module _ (rt : Runtime) (clock : Clock) (ctx : TenantContext) (signal : DetectionSignal) where
  unfoldable pub attach_evidence : String → String → Handler (Unit {0})
  unfolding store_evidence
  attach_evidence event_id content =
      let key =
        build_evidence_key signal.organization_id signal.site_id signal.camera_id event_id
          (rt.lower (type_name signal.event_type) ⧺ "-" ⧺ rt.decimal clock.file_now ⧺ ".jpg") in
      store_evidence rt ctx signal.organization_id event_id key content

  -- The early return where there is no snapshot.
  unfoldable pub maybe_attach : Option String → String → Handler (Unit {0})
  unfolding attach_evidence
  maybe_attach none event_id = pure tt
  maybe_attach (some content) event_id = attach_evidence event_id content

  unfoldable pub maybe_attach_evidence : String → Handler (Unit {0})
  unfolding maybe_attach
  maybe_attach_evidence event_id = maybe_attach signal.snapshot event_id

  unfoldable pub select_event : String → World → Option Event
  unfolding select
  select_event event_id w =
      first (select (λ (r : Event). r.organization_id) ctx (λ r. r.id == event_id) w.events)

  -- The row of an incident that fire and smoke were seen in.
  unfoldable pub upgrade_event : Event → Event
  upgrade_event r = record r {
    event_type = fire_and_smoke;
    severity = critical;
    confidence = max r.confidence signal.confidence;
    updated_at = clock.db_now;
  }

  unfoldable pub touch_event : Event → Event
  touch_event r = record r { updated_at = clock.db_now }

  -- The row of a cooldown that is extended.
  unfoldable pub extend_cooldown : String → ℕ → Cooldown → Cooldown
  extend_cooldown event_id expires_at r = record r {
    event_id = some event_id;
    last_alert_at = if leb r.expires_at clock.db_now then clock.db_now else r.last_alert_at;
    expires_at = expires_at;
  }

  unfoldable pub select_cooldown : String → World → Option Cooldown
  unfolding select
  select_cooldown key w =
      first
        (select (λ (r : Cooldown). r.organization_id) ctx (λ r. r.cooldown_key == key) w.cooldowns)

  -- The correlation of fire and smoke on the active incident; the answer is whether it upgraded.
  unfoldable pub correlate : String → Handler Bool
  unfolding select_event should_upgrade upgrade_event
  correlate event_id = do
    row ← gets (select_event event_id)
    let upgrade = is_fire_type signal.event_type && should_upgrade clock.date_now signal row
    when upgrade (update_events ctx (λ r. r.id == event_id) upgrade_event)
    pure upgrade

  unfoldable pub update_incident : String → Handler Bool
  unfolding correlate maybe_attach_evidence touch_event
  update_incident event_id = do
    upgraded ← correlate event_id
    maybe_attach_evidence event_id
    update_events ctx (λ r. r.id == event_id) touch_event
    pure upgraded

  unfoldable pub create_incident : Option AiRule → Handler String
  unfolding maybe_attach_evidence
  create_incident rule = do
    event_id ← new_id rt
    insert_event ctx (record {
      id = event_id;
      organization_id = signal.organization_id;
      site_id = signal.site_id;
      camera_id = signal.camera_id;
      ai_rule_id = or_else signal.ai_rule_id (rule_id_of rule);
      event_type = signal.event_type;
      severity = severity_of rule signal;
      confidence = signal.confidence;
      status = open_;
      correlation_id = none;
      metadata = coalesce signal.metadata "{}";
      occurred_at = clock.db_now;
      updated_at = clock.db_now;
    })
    maybe_attach_evidence event_id
    pure event_id

  -- INSERT … ON CONFLICT (organization_id, cooldown_key) DO UPDATE. On a handle bound to the
  -- signal's organization the row in conflict is the visible one with that key.
  unfoldable pub upsert_cooldown : String → String → ℕ → Handler (Unit {0})
  unfolding select_cooldown extend_cooldown
  upsert_cooldown key event_id expires_at = gets (select_cooldown key) >>= λ row.
      if is_some row
      then update_cooldowns ctx (λ r. r.cooldown_key == key) (extend_cooldown event_id expires_at)
      else insert_cooldown ctx (record {
        organization_id = signal.organization_id;
        cooldown_key = key;
        event_id = some event_id;
        last_alert_at = clock.db_now;
        expires_at = expires_at;
      })

  -- Notifications and the audit entry of an alert, then the message to the hub.
  unfoldable pub alert : String → EventType → EventSeverity → Bool → Handler ℕ
  alert event_id final_type final_severity created = do
    notified ← dispatch_notifications ctx signal.organization_id event_id final_severity final_type
    audit ctx signal.organization_id signal.actor_user_id
        (if created then "incident.create" else "incident.upgrade") "event" (some event_id)
        signal.ip
    publish (record {
      organization_id = signal.organization_id;
      kind = realtime_type_for final_type;
      payload = incident event_id final_type final_severity signal.camera_id;
    })
    pure notified

  -- Everything after the incident is known: the cooldown window, the alert and the answer.
  unfoldable pub finish : Option AiRule → String → Bool → Bool → Handler DetectionResult
  unfolding upsert_cooldown alert
  finish rule event_id created upgraded = do
    upsert_cooldown (cooldown_key signal.camera_id signal.event_type) event_id
        (clock.date_now + cooldown_seconds_of rule * 1000)
    let alerted = created || upgraded
    let final_type = if upgraded then fire_and_smoke else signal.event_type
    let final_severity = if upgraded then critical else severity_of rule signal
    notified ← if alerted then alert event_id final_type final_severity created else pure 0
    pure (record {
      event_id = event_id;
      event_type = final_type;
      severity = final_severity;
      camera_id = signal.camera_id;
      created = created;
      alerted = alerted;
      notified = notified;
      upgraded_to_fire_and_smoke = upgraded;
    })

  -- The branch on the cooldown: an incident is active, or a new one is made.
  unfoldable pub raise_on : Option AiRule → Option String → Handler DetectionResult
  unfolding update_incident create_incident finish
  raise_on rule (some event_id) =
      update_incident event_id >>= λ upgraded. finish rule event_id false upgraded
  raise_on rule none = create_incident rule >>= λ event_id. finish rule event_id true false

  -- The body below the thresholds' early returns.
  unfoldable pub raise_incident : Option AiRule → Handler DetectionResult
  unfolding active_event select_cooldown raise_on
  raise_incident rule =
      gets (select_cooldown (cooldown_key signal.camera_id signal.event_type)) >>= λ cd.
      raise_on rule (active_event clock.date_now cd)

  unfoldable pub process_detection : Handler DetectionResult
  unfolding find_rule is_below_threshold raise_incident
  process_detection = gets (find_rule ctx signal.camera_id signal.event_type) >>= λ rule.
      if not (rule_enabled rule)
      then throw (other "Detection rule is disabled for this camera/type")
      else if is_below_threshold rule signal
      then pure (no_result signal)
      else raise_incident rule
