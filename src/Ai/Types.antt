-- ===== src/Ai/Types.antt =====
-- server/src/ai/types.ts: the enumerations of events, their groups and default severities.
use ai_cctv_platform.Common.{
  Bool, ◌||◌, List, [], ◌∷◌, ◌++◌, Option, some, none, String, any, is_yes,
}

pub data EventType : Type 0 where
  person_detection vehicle_detection restricted_area_intrusion line_crossing : EventType
  loitering crowd_detection helmet_detection safety_vest_detection : EventType
  fire smoke fire_and_smoke : EventType
  unauthorized_entry after_hours_activity object_removed loitering_security : EventType
  unauthorized_vehicle restricted_zone_activity : EventType
  camera_offline camera_recovered : EventType

unfoldable pub EventType-discrete : Discrete EventType
EventType-discrete = hlevel

-- `a === b` on event types.
unfoldable pub type_eq : EventType → EventType → Bool
unfolding EventType-discrete
type_eq a b = is_yes (EventType-discrete a b)

pub data EventSeverity : Type 0 where
  info low medium high critical : EventSeverity

pub data EventStatus : Type 0 where
  open_ acknowledged investigating resolved dismissed false_positive : EventStatus

unfoldable pub base_ai_types : List EventType
base_ai_types =
    person_detection ∷ vehicle_detection ∷ restricted_area_intrusion ∷ line_crossing ∷ loitering
    ∷ crowd_detection ∷ helmet_detection ∷ safety_vest_detection ∷ []

unfoldable pub fire_types : List EventType
fire_types = fire ∷ smoke ∷ fire_and_smoke ∷ []

unfoldable pub security_types : List EventType
security_types =
    unauthorized_entry ∷ after_hours_activity ∷ object_removed ∷ loitering_security
    ∷ unauthorized_vehicle ∷ restricted_zone_activity ∷ []

unfoldable pub all_ai_types : List EventType
unfolding base_ai_types fire_types security_types
all_ai_types = base_ai_types ++ (fire_types ++ security_types)

-- `set.has(t)`.
unfoldable pub has_type : List EventType → EventType → Bool
unfolding type_eq
has_type types t = any (λ u. type_eq u t) types

unfoldable pub is_fire_type : EventType → Bool
unfolding has_type fire_types
is_fire_type t = has_type fire_types t

unfoldable pub is_security_type : EventType → Bool
unfolding has_type security_types
is_security_type t = has_type security_types t

unfoldable pub is_safety_security_type : EventType → Bool
unfolding has_type fire_types security_types
is_safety_security_type t = has_type fire_types t || has_type security_types t

unfoldable pub default_severity : EventType → Option EventSeverity
default_severity fire = some critical
default_severity fire_and_smoke = some critical
default_severity smoke = some high
default_severity unauthorized_entry = some high
default_severity after_hours_activity = some high
default_severity object_removed = some high
default_severity loitering_security = some medium
default_severity unauthorized_vehicle = some medium
default_severity restricted_zone_activity = some high
default_severity _ = none

-- The wire form of a type.
unfoldable pub type_name : EventType → String
type_name person_detection = "PERSON_DETECTION"
type_name vehicle_detection = "VEHICLE_DETECTION"
type_name restricted_area_intrusion = "RESTRICTED_AREA_INTRUSION"
type_name line_crossing = "LINE_CROSSING"
type_name loitering = "LOITERING"
type_name crowd_detection = "CROWD_DETECTION"
type_name helmet_detection = "HELMET_DETECTION"
type_name safety_vest_detection = "SAFETY_VEST_DETECTION"
type_name fire = "FIRE"
type_name smoke = "SMOKE"
type_name fire_and_smoke = "FIRE_AND_SMOKE"
type_name unauthorized_entry = "UNAUTHORIZED_ENTRY"
type_name after_hours_activity = "AFTER_HOURS_ACTIVITY"
type_name object_removed = "OBJECT_REMOVED"
type_name loitering_security = "LOITERING_SECURITY"
type_name unauthorized_vehicle = "UNAUTHORIZED_VEHICLE"
type_name restricted_zone_activity = "RESTRICTED_ZONE_ACTIVITY"
type_name camera_offline = "CAMERA_OFFLINE"
type_name camera_recovered = "CAMERA_RECOVERED"
