-- ===== src/Api/Jobs/Once.antt =====
-- A job that comes twice is one event.
use mathlib.Core.Bool.{true≢false}
use mathlib.Core.Path.{subst}
use ai_cctv_platform.Common.{◌≡◌, refl, sym, ap, ◌∙◌, String, false, Option, none, some}
use ai_cctv_platform.Ai.Types.{is_safety_security_type}
use ai_cctv_platform.Tenancy.World.{World, Runtime, Clock, Camera}
use ai_cctv_platform.Tenancy.Rls.{TenantContext, ok, publish}
use ai_cctv_platform.Tenancy.Outcomes.{
  Ensures, Ensures-post, Ensures-weaken, Ensures-bind, Ensures-seq, Ensures-if, Ensures-pure,
  Ensures-throw, Ensures-read, Ensures-step, Ensures-with_tenant,
}
use ai_cctv_platform.Api.Intake.{is_duplicate}
use ai_cctv_platform.Api.Intake.Once.{
  HasEvents, dispatch-HasEvents, snapshot-HasEvents, Recorded, record_event-Recorded,
}
use ai_cctv_platform.Api.Jobs.{
  AiJob, JobResult, job_intake, run_base, run_on, run_job, worker_context, process_ai_job,
}

module _ (rt : Runtime) (clock : Clock) (job : AiJob) where
  module _ (db : TenantContext) where
    run_base-Recorded :
        (cam : Camera) (w : World)
        → Ensures
            (run_base rt clock job db cam)
            w
            (λ _ w'. Recorded (job_intake rt clock job) w.events w'.events)
    unfolding run_base publish
    run_base-Recorded cam w =
        Ensures-bind (record_event-Recorded rt clock db cam (job_intake rt clock job) _ w)
          (λ id u k.
            Ensures-weaken {P = λ _. HasEvents u.events}
              (Ensures-seq {P = HasEvents u.events}
                (snapshot-HasEvents rt clock db cam (job_intake rt clock job) id _ u
                  (record { same = refl }))
                (λ v h.
                  Ensures-bind {P = λ _. HasEvents u.events}
                    (dispatch-HasEvents rt clock db _ id _ job.event_type v h)
                    (λ n x h.
                      Ensures-seq {P = HasEvents u.events}
                        (Ensures-step _ _ refl (record { same = h.same }))
                        (λ y h. Ensures-pure _ h))))
              (λ _ x h. subst (Recorded (job_intake rt clock job) w.events) (sym h.same) k))

    run_on-Recorded :
        (cam : Option Camera) (w : World)
        → is_safety_security_type job.event_type ≡ false
        → Ensures
            (run_on rt clock job db cam)
            w
            (λ _ w'. Recorded (job_intake rt clock job) w.events w'.events)
    run_on-Recorded none w base = Ensures-throw _
    run_on-Recorded (some cam) w base =
        Ensures-if (is_safety_security_type job.event_type)
          (λ y. absurd (true≢false (sym y ∙ base))) (λ _. run_base-Recorded cam w)

  process_ai_job-Recorded :
      (w : World)
      → is_safety_security_type job.event_type ≡ false
      → Ensures
          (process_ai_job rt clock job)
          w
          (λ _ w'. Recorded (job_intake rt clock job) w.events w'.events)
  unfolding process_ai_job run_job
  process_ai_job-Recorded w base =
      Ensures-with_tenant (worker_context job.organization_id) (run_job rt clock job)
        (Ensures-read _ _ (run_on-Recorded (worker_context job.organization_id) _ w base))

-- A job of a base type that carries a correlation id, and is run again after it succeeded, at
-- whatever later time, adds no event.
pub process_ai_job-once :
    (rt : Runtime) (clock later : Clock) (job : AiJob) (c : String) (w w' w'' : World)
    (r r' : JobResult)
    → is_safety_security_type job.event_type ≡ false
    → job.correlation_id ≡ some c
    → process_ai_job rt clock job w ≡ ok r w'
    → process_ai_job rt later job w' ≡ ok r' w''
    → w''.events ≡ w'.events
unfolding job_intake
process_ai_job-once rt clock later job c w w' w'' r r' base named e e' =
    let done = Ensures-post (process_ai_job-Recorded rt clock job w base) e in
    let again = Ensures-post (process_ai_job-Recorded rt later job w' base) e' in
    again.repeated
      (ap (λ d. is_duplicate job.organization_id d w'.events) named ∙ done.marked c named)
