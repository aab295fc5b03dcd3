-- ===== src/Media/Pipeline/Reports.antt =====
-- The reports of a pipeline's run, and what health.service.ts emits for them.
use ai_cctv_platform.Common.{
  ℕ, ◌≡◌, refl, ap, ◌∙◌, true, false, Option, some, none, List, [], ◌∷◌, ◌++◌, All, arith, length,
}
use ai_cctv_platform.Ai.Types.{EventType, camera_offline, camera_recovered}
use ai_cctv_platform.Media.Status.{CameraStatus, is_offline_status}
use ai_cctv_platform.Media.Health.{HealthUpdate, transition, apply_all}
use ai_cctv_platform.Media.Health.Flapping.{
  emissions, emitted, statuses, IsOf, seen_as, apply_all_lem,
}
use ai_cctv_platform.Media.Pipeline.{
  MediaConfig, HealthReport, Pipeline, new_pipeline, start, Input, exits, step, run,
}
use ai_cctv_platform.Media.Pipeline.Invariant.{IsValid, step-IsValid, started-IsValid}
use ai_cctv_platform.Tenancy.World.{World, Runtime, Camera}
use ai_cctv_platform.Tenancy.Rls.{TenantContext, org_visible}
use ai_cctv_platform.Tenancy.Triples.{Yields, Yields-weaken}

-- The statuses in the order in which they were reported.
abbrev pub in_order : List HealthReport → List CameraStatus
in_order [] = []
in_order (r ∷ rs) = in_order rs ++ r.status ∷ []

-- The last status, and what is emitted, counted from the last report back.
abbrev latest : CameraStatus → List HealthReport → CameraStatus
latest s [] = s
latest s (r ∷ rs) = r.status

abbrev emitted_back : CameraStatus → List HealthReport → List (Option EventType)
emitted_back s [] = []
emitted_back s (r ∷ rs) = transition (latest s rs) r.status ∷ emitted_back s rs

abbrev end_of : CameraStatus → List CameraStatus → CameraStatus
end_of s [] = s
end_of s (x ∷ xs) = end_of x xs

end_of-concat : (s y : CameraStatus) (xs : List CameraStatus) → end_of s (xs ++ y ∷ []) ≡ y
end_of-concat s y [] = refl
end_of-concat s y (x ∷ xs) = end_of-concat x y xs

end_of-in_order : (s : CameraStatus) (rs : List HealthReport) → end_of s (in_order rs) ≡ latest s rs
end_of-in_order s [] = refl
end_of-in_order s (r ∷ rs) = end_of-concat s r.status (in_order rs)

emissions-concat :
    (s y : CameraStatus) (xs : List CameraStatus)
    → emissions s (xs ++ y ∷ []) ≡ emissions s xs ++ transition (end_of s xs) y ∷ []
emissions-concat s y [] = refl
emissions-concat s y (x ∷ xs) = ap (λ es. transition s x ∷ es) (emissions-concat x y xs)

emitted-concat :
    (t : EventType) (es : List (Option EventType)) (e : Option EventType)
    → emitted t (es ++ e ∷ []) ≡ emitted t (e ∷ es)
unfolding emitted
emitted-concat t [] e = refl
emitted-concat t (none ∷ es) e = ground (arith, emitted-concat t es e)
emitted-concat t (some u ∷ es) e = ground (arith, emitted-concat t es e)

emitted-cons :
    (t : EventType) (e : Option EventType) (es fs : List (Option EventType))
    → emitted t es ≡ emitted t fs
    → emitted t (e ∷ es) ≡ emitted t (e ∷ fs)
unfolding emitted
emitted-cons t none es fs h = h
emitted-cons t (some u) es fs h = ground (arith, h)

emitted-in_order :
    (t : EventType) (s : CameraStatus) (rs : List HealthReport)
    → emitted t (emissions s (in_order rs)) ≡ emitted t (emitted_back s rs)
emitted-in_order t s [] = refl
emitted-in_order t s (r ∷ rs) =
    ap (emitted t) (emissions-concat s r.status (in_order rs))
    ∙ emitted-concat t (emissions s (in_order rs)) _
    ∙ ap (λ x. emitted t (transition x r.status ∷ emissions s (in_order rs))) (end_of-in_order s rs)
    ∙ emitted-cons t _ _ _ (emitted-in_order t s rs)

-- What was emitted so far for a camera that was at `s` when the pipeline started.
record Emits (s : CameraStatus) (p : Pipeline) : Type 0 where
  up : is_offline_status (latest s p.reports) ≡ false
  offline : emitted camera_offline (emitted_back s p.reports) ≡ length p.delays
  recovered : emitted camera_recovered (emitted_back s p.reports) ≡ 0

step-Emits :
    (cfg : MediaConfig) (s : CameraStatus) (p : Pipeline) (i : Input)
    → IsValid cfg p
    → Emits s p
    → Emits s (step cfg p i)
unfolding step emitted transition
step-Emits cfg s p exits v h = ground (arith, v.still)
step-Emits cfg s p _ v h = ground arith

run-Emits :
    (cfg : MediaConfig) (s : CameraStatus) (p : Pipeline) (is : List Input)
    → IsValid cfg p
    → Emits s p
    → Emits s (run cfg p is)
unfolding run
run-Emits cfg s p [] v h = h
run-Emits cfg s p (i ∷ is) v h =
    run-Emits cfg s (step cfg p i) is (step-IsValid cfg p i v) (step-Emits cfg s p i v h)

started-Emits : (s : CameraStatus) → is_offline_status s ≡ false → Emits s (start new_pipeline)
unfolding start new_pipeline emitted transition
started-Emits s h = ground arith

-- Where the API gets the reports of a run of a started pipeline one after the other, in their
-- order, none lost, on a handle that sees the camera, whose status was not an offline one: it emits
-- CAMERA_OFFLINE once for every reconnect that the pipeline scheduled, and CAMERA_RECOVERED never,
-- whatever frames and answers came between the breaks, and whenever it was stopped.
pub run-flapping :
    (cfg : MediaConfig) (is : List Input) (rt : Runtime) (ctx : TenantContext) (base : HealthUpdate)
    (us : List (ℕ × HealthUpdate)) (prior : Camera) (w : World)
    → org_visible ctx base.organization_id ≡ true
    → All (IsOf base.organization_id base.camera_id) us
    → seen_as rt ctx base w ≡ some prior
    → is_offline_status prior.status ≡ false
    → statuses us ≡ in_order (run cfg (start new_pipeline) is).reports
    → Yields (apply_all rt ctx us) w (λ es _.
      (emitted camera_offline es ≡ length (run cfg (start new_pipeline) is).delays)
      × (emitted camera_recovered es ≡ 0))
run-flapping cfg is rt ctx base us prior w visible of known up sent =
    let s = prior.status in
    let h = run-Emits cfg s (start new_pipeline) is (started-IsValid cfg) (started-Emits s up) in
    let back = λ (t : EventType). emitted-in_order t s (run cfg (start new_pipeline) is).reports in
    Yields-weaken (apply_all_lem rt ctx base visible us prior w of known) (λ es w' p. (
      ap (emitted camera_offline) p
          ∙ ap (λ ss. emitted camera_offline (emissions s ss)) sent
          ∙ back camera_offline
          ∙ h.offline,
      ap (emitted camera_recovered) p
          ∙ ap (λ ss. emitted camera_recovered (emissions s ss)) sent
          ∙ back camera_recovered
          ∙ h.recovered,
    ))
