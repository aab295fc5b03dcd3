-- ===== src/Ai/Rules.antt =====
-- server/src/ai/rule-eval.ts: which events a raw detection raises under a camera's rules. The zones
-- and their schedules are read beside the rules, all under the policy.
pub mod Deduplication
pub mod Examples
use ai_cctv_platform.Common.{
  ℕ, Bool, true, false, ◌&&◌, ◌||◌, not, String, Option, some, none, List, [], ◌∷◌, ◌==◌, ltb,
  coalesce, filter, first, truthy, if◌then◌else◌,
}
use ai_cctv_platform.Ai.Types.{
  EventType, person_detection, vehicle_detection, unauthorized_entry, after_hours_activity,
  loitering_security, unauthorized_vehicle, restricted_zone_activity, has_type, type_eq,
}
use ai_cctv_platform.Ai.Zone.{NumberOps, BBox, ZoneGeometry, detection_in_zone}
use ai_cctv_platform.Ai.Schedule.{ScheduleRow, Moment, is_after_hours}
use ai_cctv_platform.Tenancy.World.{World, AiRule}
use ai_cctv_platform.Tenancy.Rls.{TenantContext, select}

pub data RawClass : Type 0 where
  person vehicle fire smoke : RawClass

pub record RawDetection (N : Type 0) : Type 0 where
  pub raw_class : RawClass
  pub confidence : ℕ
  pub bbox : BBox N
  pub dwell_ms : Option ℕ

pub record EvaluatedEvent : Type 0 where
  pub event_type : EventType
  pub confidence : ℕ
  pub zone_id : Option String
  pub rule_id : Option String  -- metadata.ruleId

pub record ZoneRow (N : Type 0) : Type 0 where
  pub id : String
  pub organization_id : String
  pub geometry : Option (ZoneGeometry N)

unfoldable pub person_security_rules : List EventType
person_security_rules =
    unauthorized_entry ∷ after_hours_activity ∷ restricted_zone_activity ∷ loitering_security
    ∷ person_detection ∷ []

unfoldable pub vehicle_security_rules : List EventType
vehicle_security_rules = unauthorized_vehicle ∷ vehicle_detection ∷ restricted_zone_activity ∷ []

abbrev pub is_person : RawClass → Bool
is_person person = true
is_person _ = false

unfoldable pub is_applicable : RawClass → AiRule → Bool
unfolding has_type person_security_rules vehicle_security_rules
is_applicable c r =
    if is_person c
    then has_type person_security_rules r.rule_type
    else has_type vehicle_security_rules r.rule_type

abbrev pub geometry_of : {N : Type 0} → Option (ZoneRow N) → Option (ZoneGeometry N)
geometry_of none = none
geometry_of (some z) = z.geometry

module _ {N : Type 0} (ops : NumberOps N) (ctx : TenantContext) (zones : List (ZoneRow N))
    (schedules : List ScheduleRow) (at_time : Moment) (det : RawDetection N) where
  unfoldable pub get_zone : String → Option (ZoneGeometry N)
  unfolding select
  get_zone zone_id =
      geometry_of
        (first (select (λ (z : ZoneRow N). z.organization_id) ctx (λ z. z.id == zone_id) zones))

  -- The zone gate, and the gate of the closing hours, which needs a zone.
  abbrev pub zone_matches : Option String → Bool
  zone_matches none = true
  zone_matches (some zone_id) = detection_in_zone ops det.bbox (get_zone zone_id)

  abbrev pub is_closed : Option String → Bool
  is_closed none = false
  is_closed (some zone_id) = is_after_hours ctx zone_id at_time schedules

  -- What the loop's `continue`s let through.
  unfoldable pub raises : AiRule → Bool
  unfolding type_eq get_zone detection_in_zone is_after_hours
  raises r =
      not (ltb det.confidence r.min_confidence)
      && zone_matches (truthy r.zone_id)
      && (not (type_eq r.rule_type after_hours_activity) || is_closed (truthy r.zone_id))
      && (not (type_eq r.rule_type loitering_security)
          || not (ltb (coalesce det.dwell_ms 0) (coalesce r.min_dwell_ms 10_000)))

  -- The loop, with the types that it has seen.
  unfoldable pub evaluate_rules : List AiRule → List EventType → List EvaluatedEvent
  unfolding raises has_type
  evaluate_rules [] seen = []
  evaluate_rules (r ∷ rs) seen =
      let event : EvaluatedEvent = record {
        event_type = r.rule_type;
        confidence = det.confidence;
        zone_id = r.zone_id;
        rule_id = some r.id;
      } in
      let raised = event ∷ evaluate_rules rs (r.rule_type ∷ seen) in
      let skipped = evaluate_rules rs seen in
      if raises r && not (has_type seen r.rule_type) then raised else skipped

  unfoldable pub camera_rules : String → World → List AiRule
  unfolding select is_applicable
  camera_rules camera_id w = filter (is_applicable det.raw_class) (
      select (λ (r : AiRule). r.organization_id) ctx (λ r. r.camera_id == camera_id && r.enabled)
        w.ai_rules)

  -- Fire and smoke pass whatever the rules say.
  abbrev pub evaluate_class : RawClass → String → World → List EvaluatedEvent
  evaluate_class fire camera_id w =
      record {
        event_type = EventType.fire;
        confidence = det.confidence;
        zone_id = none;
        rule_id = none;
      }
      ∷ []
  evaluate_class smoke camera_id w =
      record {
        event_type = EventType.smoke;
        confidence = det.confidence;
        zone_id = none;
        rule_id = none;
      }
      ∷ []
  evaluate_class _ camera_id w = evaluate_rules (camera_rules camera_id w) []

  unfoldable pub evaluate_detection : String → World → List EvaluatedEvent
  unfolding evaluate_rules camera_rules
  evaluate_detection camera_id w = evaluate_class det.raw_class camera_id w
