-- ===== src/Ai/Engine/Examples.antt =====
-- Tests of the detection engine on one camera, and its theorems at concrete inputs.
use ai_cctv_platform.Common.{◌≡◌, refl, true, false, none, some, arith, length, ◌<◌, ◌+◌, ◌*◌}
use ai_cctv_platform.Media.Status.{CameraStatus}
use ai_cctv_platform.Ai.Types.{EventType, fire, smoke, fire_and_smoke, critical}
use ai_cctv_platform.Tenancy.World.{World, Event}
use ai_cctv_platform.Tenancy.Rls.{Run, ok, err, world_of, run_handlers, run_statements}
use ai_cctv_platform.Services.Notification.{dispatch_notifications, audit}
use ai_cctv_platform.Tenancy.Triples.{Yields}
use ai_cctv_platform.Tenancy.Isolation.{view}
use ai_cctv_platform.Tenancy.Fixtures.{world_with, runtime, clock_at, tenant_a, sees_a, bound_to_a}
use ai_cctv_platform.Ai.Engine.{
  DetectionSignal, DetectionResult, process_detection, find_rule, is_below_threshold, select_event,
  no_result, cooldown_key, active_event, select_cooldown, cooldown_seconds_of,
}
use ai_cctv_platform.Ai.Engine.Isolation.{process_detection-isolation}
use ai_cctv_platform.Ai.Engine.Incidents.{IsAccepted, Told, Named, rule_at, active_at}
use ai_cctv_platform.Ai.Engine.Alerts.{Sent}
use ai_cctv_platform.Ai.Engine.Incidents.Detected.{Detected, process_detection_lem}
use ai_cctv_platform.Ai.Engine.Incidents.Sequences.{
  process_detection-dedup, process_detection-upgrade,
}

abbrev seen : EventType → DetectionSignal
seen type = record {
  organization_id = "a";
  camera_id = "c1";
  site_id = "s1";
  event_type = type;
  confidence = 900;
  severity = none;
  duration_ms = none;
  ai_rule_id = none;
  metadata = none;
  snapshot = some "jpeg";
  actor_user_id = none;
  ip = none;
}

abbrev start : World
start = world_with CameraStatus.online

abbrev result_of : Run DetectionResult → DetectionResult
result_of (ok r w) = r
result_of (err e w) = no_result (seen fire)

abbrev fire_run : Run DetectionResult
fire_run = process_detection runtime (clock_at 1000) tenant_a (seen fire) start

fire_run-ok : fire_run ≡ ok (result_of fire_run) (world_of fire_run)
unfolding process_detection run_handlers run_statements dispatch_notifications audit
fire_run-ok = refl

accepts_fire : IsAccepted runtime (clock_at 1000) tenant_a (seen fire) sees_a start
unfolding find_rule is_below_threshold
accepts_fire = record { enabled = refl; above = refl }

accepts_smoke : IsAccepted runtime (clock_at 9000) tenant_a (seen smoke) sees_a (world_of fire_run)
unfolding find_rule is_below_threshold process_detection run_handlers run_statements
    dispatch_notifications audit
accepts_smoke = record { enabled = refl; above = refl }

fire_alerts : (result_of fire_run).alerted ≡ true
unfolding process_detection run_handlers run_statements dispatch_notifications audit
fire_alerts = refl

same_key : cooldown_key "c1" smoke ≡ cooldown_key "c1" fire
unfolding cooldown_key
same_key = refl

process_detection-isolation_example : view "b" (world_of fire_run) ≡ view "b" start
process_detection-isolation_example =
    process_detection-isolation runtime (clock_at 1000) tenant_a (seen fire)
      (record { bound = bound_to_a; same = refl; plain = omega arith; plain_other = omega arith })
      start

process_detection_lem_example :
    Yields
      (process_detection runtime (clock_at 9000) tenant_a (seen smoke))
      (world_of fire_run)
      (λ r w.
        Detected runtime
          (clock_at 9000)
          tenant_a
          (seen smoke)
          sees_a
          (world_of fire_run)
          (active_at runtime (clock_at 9000) tenant_a (seen smoke) sees_a (world_of fire_run))
          r
          w
        × Told runtime (clock_at 9000) tenant_a (seen smoke) sees_a (world_of fire_run) r w
        × Named runtime
            (clock_at 9000)
            tenant_a
            (seen smoke)
            sees_a
            (rule_at runtime (clock_at 9000) tenant_a (seen smoke) sees_a (world_of fire_run))
            r)
process_detection_lem_example =
    process_detection_lem runtime (clock_at 9000) tenant_a (seen smoke) sees_a (world_of fire_run)
      accepts_smoke

within :
    9000
    < 1000
      + cooldown_seconds_of (rule_at runtime (clock_at 1000) tenant_a (seen fire) sees_a start)
        * 1000
unfolding find_rule
within = omega arith

process_detection-dedup_example :
    Yields
      (process_detection runtime (clock_at 9000) tenant_a (seen smoke))
      (world_of fire_run)
      (λ r w.
        (r.event_id ≡ (result_of fire_run).event_id)
        × (r.created ≡ false)
        × (length w.events ≡ length (world_of fire_run).events))
process_detection-dedup_example =
    process_detection-dedup runtime tenant_a (clock_at 1000) (clock_at 9000) (seen fire)
      (seen smoke) sees_a sees_a same_key start within (result_of fire_run) (world_of fire_run)
      accepts_fire fire_run-ok accepts_smoke

idle_at_start : active_at runtime (clock_at 1000) tenant_a (seen fire) sees_a start ≡ none
unfolding active_event select_cooldown
idle_at_start = refl

fresh_at_start : select_event runtime (clock_at 1000) tenant_a (seen fire) "e1" start ≡ none
unfolding select_event
fresh_at_start = refl

process_detection-upgrade_example :
    Yields
      (process_detection runtime (clock_at 9000) tenant_a (seen smoke))
      (world_of fire_run)
      (λ r w.
        (r.event_id ≡ (result_of fire_run).event_id)
        × (r.upgraded_to_fire_and_smoke ≡ true)
        × (r.alerted ≡ true)
        × (length w.events ≡ length (world_of fire_run).events)
        × ((row : Event) × (select_event runtime
                (clock_at 9000)
                tenant_a
                (seen smoke)
                (result_of fire_run).event_id
                w
              ≡ some row)
            × (row.event_type ≡ fire_and_smoke)
            × (row.severity ≡ critical))
        × Sent tenant_a
            (seen smoke)
            (result_of fire_run).event_id
            fire_and_smoke
            critical
            "incident.upgrade"
            r.notified
            (world_of fire_run)
            w)
process_detection-upgrade_example =
    process_detection-upgrade runtime tenant_a (clock_at 1000) (clock_at 9000) (seen fire)
      (seen smoke) sees_a sees_a same_key start within (result_of fire_run) (world_of fire_run)
      accepts_fire idle_at_start fresh_at_start refl refl (omega arith) fire_run-ok accepts_smoke
