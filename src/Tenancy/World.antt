-- ===== src/Tenancy/World.antt =====
-- The state behind the API: the tenant tables that the modelled handlers read and write
-- (server/src/db/migrations), the private objects, and the messages given to the hub.
-- Instants are milliseconds; a confidence is in thousandths, as the column numeric(4,3) keeps it.
use ai_cctv_platform.Common.{ℕ, Bool, String, Option, List}
use ai_cctv_platform.Access.Rbac.{OrgRole}
use ai_cctv_platform.Access.Directory.{UserRow, MemberStatus}
use ai_cctv_platform.Ai.Types.{EventType, EventSeverity, EventStatus}
use ai_cctv_platform.Media.Status.{CameraStatus, CameraHealth}

pub record Camera : Type 0 where
  pub id : String
  pub organization_id : String
  pub site_id : String
  pub zone_id : Option String
  pub name : String
  pub rtsp_host : Option String
  pub rtsp_path : Option String
  pub rtsp_port : ℕ
  pub onvif_endpoint : Option String
  pub stream_profile : String
  pub enabled : Bool
  pub inference_enabled : Bool
  pub inference_fps : ℕ  -- in hundredths
  pub source_kind : String
  pub status : CameraStatus
  pub health : CameraHealth
  pub resolution : Option String
  pub codec : Option String
  pub source_fps : Option ℕ
  pub reconnect_count : ℕ
  pub last_frame_at : Option ℕ
  pub last_inference_at : Option ℕ
  pub last_connected_at : Option ℕ
  pub last_seen_at : Option ℕ
  pub updated_at : ℕ

pub record Site : Type 0 where
  pub id : String
  pub organization_id : String
  pub name : String
  pub address : Option String
  pub timezone : String
  pub updated_at : ℕ

pub record Zone : Type 0 where
  pub id : String
  pub organization_id : String
  pub site_id : String
  pub name : String
  pub geometry : String

-- A row of camera_credentials, in which both texts are encrypted.
pub record Credentials : Type 0 where
  pub organization_id : String
  pub camera_id : String
  pub username_enc : String
  pub password_enc : String
  pub updated_at : ℕ

pub record Subscription : Type 0 where
  pub organization_id : String
  pub camera_limit : ℕ

-- A row of organization_members, with the columns that its own routes read.
pub record Member : Type 0 where
  pub id : String
  pub organization_id : String
  pub user_id : String
  pub role : OrgRole
  pub status : MemberStatus
  pub updated_at : ℕ

pub record AiRule : Type 0 where
  pub id : String
  pub organization_id : String
  pub camera_id : String
  pub zone_id : Option String
  pub rule_type : EventType
  pub enabled : Bool
  pub min_confidence : ℕ
  pub min_dwell_ms : Option ℕ  -- config.minDwellMs
  pub cooldown_seconds : ℕ
  pub min_duration_ms : ℕ
  pub severity : EventSeverity
  pub updated_at : ℕ

pub record Event : Type 0 where
  pub id : String
  pub organization_id : String
  pub site_id : String
  pub camera_id : String
  pub ai_rule_id : Option String
  pub event_type : EventType
  pub severity : EventSeverity
  pub confidence : ℕ
  pub status : EventStatus
  pub correlation_id : Option String
  pub metadata : String
  pub occurred_at : ℕ
  pub updated_at : ℕ

pub record Cooldown : Type 0 where
  pub organization_id : String
  pub cooldown_key : String
  pub event_id : Option String
  pub last_alert_at : ℕ
  pub expires_at : ℕ

pub record IncidentNote : Type 0 where
  pub id : String
  pub organization_id : String
  pub event_id : String
  pub author_id : String
  pub note : String

pub record Evidence : Type 0 where
  pub id : String
  pub organization_id : String
  pub event_id : String
  pub storage_key : String

pub record NotificationRule : Type 0 where
  pub id : String
  pub organization_id : String
  pub channel : String
  pub target : String
  pub min_severity : EventSeverity
  pub enabled : Bool

pub record Notification : Type 0 where
  pub organization_id : String
  pub event_id : String
  pub notification_rule_id : String
  pub channel : String
  pub target : String
  pub message : String

pub record AuditLog : Type 0 where
  pub organization_id : String
  pub user_id : Option String
  pub action : String
  pub resource : String
  pub resource_id : Option String
  pub ip : Option String

pub record HealthEvent : Type 0 where
  pub organization_id : String
  pub camera_id : String
  pub status : CameraStatus
  pub health : CameraHealth
  pub detail : Option String

pub record InferenceStats : Type 0 where
  pub organization_id : String
  pub camera_id : String
  pub frames_processed : ℕ
  pub detections_total : ℕ
  pub inference_failures : ℕ
  pub avg_latency_ms : ℕ
  pub last_model : Option String
  pub last_model_version : Option String
  pub updated_at : ℕ

pub data Payload : Type 0 where
  ingested : String → EventType → EventSeverity → String → ℕ → Payload
  incident : String → EventType → EventSeverity → String → Payload
  camera_state : String → CameraStatus → CameraHealth → Payload

-- A call `publishTenantEvent(organizationId, { type, payload })`.
pub record Published : Type 0 where
  pub organization_id : String
  pub kind : String
  pub payload : Payload

pub record StoredObject : Type 0 where
  pub storage_key : String
  pub content : String

pub record World : Type 0 where
  pub cameras : List Camera
  pub ai_rules : List AiRule
  pub events : List Event
  pub cooldowns : List Cooldown
  pub evidence : List Evidence
  pub notification_rules : List NotificationRule
  pub notifications : List Notification
  pub audit_logs : List AuditLog
  pub health_events : List HealthEvent
  pub sites : List Site
  pub zones : List Zone
  pub credentials : List Credentials
  pub subscriptions : List Subscription
  pub members : List Member
  pub notes : List IncidentNote
  pub stats : List InferenceStats
  pub users : List UserRow  -- of every organization
  pub objects : List StoredObject
  pub published : List Published
  pub issued : ℕ  -- how many ids gen_random_uuid() has given out

-- What the runtime provides: ids, the decimal form of a number, lower case, and a JSON text.
pub record Runtime : Type 0 where
  pub uuid : ℕ → String
  pub decimal : ℕ → String
  pub lower : String → String
  pub trim : String → String
  pub before_at : String → String  -- split('@')[0]
  pub short_uuid : ℕ → String  -- randomUUID().slice(0, 6)
  pub utf8 : String → List ℕ
  pub detection_json : String → Option String → Option String → Option String → String
  pub from_base64 : String → String
  pub hash_random : ℕ → String  -- hashPassword(randomToken(16))
  -- AES-256-GCM under the configured key, in base64: a draw's initialization vector, the tag and the
  -- text for a plain text, and the plain text for the three, unless the tag does not fit.
  pub key_length : ℕ
  pub iv64 : ℕ → String
  pub seal : String → String → String × String
  pub unseal : String → String → String → Option String
  pub health_json : CameraStatus → Option String → String  -- JSON.stringify({ status, detail })

-- The clocks that a handler reads: `Date.now()` at its test, `now()` of the transaction, and
-- `Date.now()` where a file is named.
pub record Clock : Type 0 where
  pub date_now : ℕ
  pub db_now : ℕ
  pub file_now : ℕ
