-- ===== src/Api/Internal/Isolation.antt =====
-- What the worker reports for one organization leaves every other organization's state.
use ai_cctv_platform.Common.{◌≡◌, ◌≢◌, refl, String, Lacks, List, [], ◌∷◌}
use ai_cctv_platform.Ai.Rules.{EvaluatedEvent}
use ai_cctv_platform.Ai.Engine.Isolation.{process_detection-Spares}
use ai_cctv_platform.Ai.Tracker.{SessionTracker}
use ai_cctv_platform.Media.Health.{HealthUpdate}
use ai_cctv_platform.Media.Health.Isolation.{apply_health_update-Spares}
use ai_cctv_platform.Tenancy.World.{World, Runtime, Clock, Camera}
use ai_cctv_platform.Tenancy.Rls.{TenantContext, world_of}
use ai_cctv_platform.Tenancy.Isolation.{
  view, Spares, Spares-pure, Spares-gets, Spares-if, Spares-bind,
}
use ai_cctv_platform.Tenancy.Isolation.Statements.{
  BoundElsewhere, insert_stats-Spares, update_stats-Spares, with_tenant-Spares,
}
use ai_cctv_platform.Api.Rows.{require_camera-Spares}
use ai_cctv_platform.Api.Jobs.{worker_context}
use ai_cctv_platform.Api.Isolation.{IsApart}
use ai_cctv_platform.Api.Internal.{
  DetectionJob, Surroundings, signal_of, raise_all, run_detections, submit_detections,
  health_update, run_health, report_health, StatsJob, add_stats, upsert_stats, run_stats,
  report_stats,
}

elsewhere : (org o : String) → org ≢ o → BoundElsewhere (worker_context org) o
unfolding worker_context
elsewhere org o apart = record { scoped = refl; apart = apart }

module _ {N : Type 0} (rt : Runtime) (clock : Clock) (env : Surroundings N)
    (job : DetectionJob N) where
  raise_all-Spares :
      {db : TenantContext} {o : String}
      → IsApart db job.organization_id o
      → (cam : Camera) (es : List EvaluatedEvent) → Spares o (raise_all rt clock env job db cam es)
  unfolding raise_all signal_of
  raise_all-Spares f cam [] = Spares-pure []
  raise_all-Spares {db} f cam (e ∷ es) =
      Spares-bind
        (process_detection-Spares rt clock db _
          (record { bound = f.bound; same = f.same; plain = f.plain; plain_other = f.plain_other }))
        (λ r. Spares-bind (raise_all-Spares f cam es) (λ rs. Spares-pure _))

  -- Whatever a report of detections names, an organization that it does not name keeps its rows, its
  -- objects and its messages, for organization ids without slashes.
  pub submit_detections-isolation :
      (o : String) (tracker : SessionTracker N)
      → job.organization_id ≢ o
      → Lacks b'/' job.organization_id
      → Lacks b'/' o
      → (w : World)
      → view o (world_of ((submit_detections rt clock env job tracker w).0)) ≡ view o w
  unfolding submit_detections run_detections worker_context
  submit_detections-isolation o tracker apart plain plain_other w =
      (with_tenant-Spares (worker_context job.organization_id)
          (run_detections rt clock env job tracker) spares).at
        w
    where
      spares :
          Spares o (run_detections rt clock env job tracker (worker_context job.organization_id))
      spares =
          Spares-bind (require_camera-Spares (worker_context job.organization_id) job.camera_id)
            (λ cam. Spares-bind (Spares-gets _) (λ es.
              raise_all-Spares
                (record {
                  bound = elsewhere job.organization_id o apart;
                  same = refl;
                  plain = plain;
                  plain_other = plain_other;
                })
                cam es))

run_health-Spares :
    (rt : Runtime) (clock : Clock) (job : HealthUpdate) {db : TenantContext} {o : String}
    → BoundElsewhere db o
    → db.organization_id ≡ job.organization_id
    → Spares o (run_health rt clock job db)
unfolding run_health health_update
run_health-Spares rt clock job {db} b same =
    Spares-bind (require_camera-Spares db job.camera_id)
      (λ cam. apply_health_update-Spares rt clock.db_now db (health_update job cam) b same)

run_stats-Spares :
    (clock : Clock) (job : StatsJob) {db : TenantContext} {o : String}
    → BoundElsewhere db o
    → Spares o (run_stats clock job db)
unfolding run_stats upsert_stats add_stats
run_stats-Spares clock job {db} b = Spares-bind (require_camera-Spares db job.camera_id) (λ cam.
    Spares-bind (Spares-gets _)
      (λ old. Spares-if _ (update_stats-Spares b _ _ (λ r. refl)) (insert_stats-Spares b _)))

-- Whatever a report of health or of statistics names, an organization that it does not name keeps
-- its rows, its objects and its messages.
pub reports-isolation :
    (rt : Runtime) (clock : Clock) (health : HealthUpdate) (stats : StatsJob) (o : String)
    → health.organization_id ≢ o
    → stats.organization_id ≢ o
    → (w : World)
    → (view o (world_of (report_health rt clock health w)) ≡ view o w)
      × (view o (world_of (report_stats clock stats w)) ≡ view o w)
unfolding report_health report_stats worker_context
reports-isolation rt clock health stats o h_apart s_apart w = (
  (with_tenant-Spares (worker_context health.organization_id) (run_health rt clock health)
        (run_health-Spares rt clock health (elsewhere health.organization_id o h_apart) refl)).at
      w,
  (with_tenant-Spares (worker_context stats.organization_id) (run_stats clock stats)
        (run_stats-Spares clock stats (elsewhere stats.organization_id o s_apart))).at
      w,
)
