-- ===== src/Media/Pipeline/Examples.antt =====
-- Tests of the pipeline, and its theorems at concrete inputs.
use ai_cctv_platform.Common.{ℕ, List, length, ◌≡◌, refl, true, [], ◌∷◌, ◌++◌, some}
use ai_cctv_platform.Ai.Types.{camera_offline, camera_recovered}
use ai_cctv_platform.Media.Status.{CameraStatus}
use ai_cctv_platform.Tenancy.Triples.{Yields}
use ai_cctv_platform.Tenancy.Fixtures.{camera_at, world_with, runtime, tenant_a, sees_a}
use ai_cctv_platform.Media.Health.{HealthUpdate, apply_all}
use ai_cctv_platform.Media.Health.Flapping.{emitted, statuses}
use ai_cctv_platform.Media.Health.Examples.{report, known_camera, online_is_up}
use ai_cctv_platform.Media.Pipeline.Reports.{in_order, run-flapping}
use ai_cctv_platform.Media.Pipeline.{
  MediaConfig, Input, new_pipeline, start, exits, timeout, frame, inferred, submitted, stops, flush,
  run, Pipeline,
}
use ai_cctv_platform.Media.Pipeline.Invariant.{IsValid, started-IsValid, run-IsValid}
use ai_cctv_platform.Media.Pipeline.Reconnects.{outages, count_down, run-interval_leak, run-stopped}

abbrev config : MediaConfig
config = record { reconnect_base_ms = 1000; reconnect_max_ms = 60_000; inference_enabled = true }

three_outages : (run config (start new_pipeline) (outages 3)).delays ≡ 1000 ∷ 1000 ∷ 1000 ∷ []
unfolding run start new_pipeline
three_outages = refl

run-interval_leak_example :
    (run config (start new_pipeline) (outages 2 ++ stops ∷ [])).intervals ≡ count_down 2
run-interval_leak_example = run-interval_leak config 2

-- A pipeline whose timeout was not cleared and whose child still runs.
abbrev half_stopped : Pipeline
half_stopped = record (start new_pipeline) { stopped = true; reconnect_timer = some 1000 }

abbrev after_stop : List Input
after_stop = timeout ∷ exits ∷ timeout ∷ frame ∷ []

run-stopped_example :
    ((run config half_stopped after_stop).stopped ≡ true)
    × ((run config half_stopped after_stop).next_interval ≡ half_stopped.next_interval)
    × ((run config half_stopped after_stop).delays ≡ half_stopped.delays)
    × ((run config half_stopped after_stop).listening ≡ half_stopped.listening)
    × (start (run config half_stopped after_stop) ≡ run config half_stopped after_stop)
run-stopped_example = run-stopped config after_stop half_stopped refl

run-IsValid_example :
    IsValid config
      (run config (start new_pipeline) (frame ∷ inferred 40 2 ∷ submitted ∷ flush ∷ []))
run-IsValid_example =
    run-IsValid config (start new_pipeline) (frame ∷ inferred 40 2 ∷ submitted ∷ flush ∷ [])
      (started-IsValid config)

-- The stream breaks, an answer of the inference service comes late, and the stream is back.
abbrev broken_once : List Input
broken_once = frame ∷ exits ∷ inferred 40 0 ∷ timeout ∷ flush ∷ frame ∷ []

abbrev sent : List (ℕ × HealthUpdate)
sent =
    (1, report CameraStatus.connecting)
    ∷ (2, report CameraStatus.online)
    ∷ (3, report CameraStatus.offline)
    ∷ (4, report CameraStatus.reconnecting)
    ∷ (5, report CameraStatus.online)
    ∷ (6, report CameraStatus.connecting)
    ∷ (7, report CameraStatus.online)
    ∷ []

ordered_reports : statuses sent ≡ in_order (run config (start new_pipeline) broken_once).reports
unfolding run start new_pipeline
ordered_reports = refl

run-flapping_example :
    Yields (apply_all runtime tenant_a sent) (world_with CameraStatus.online) (λ es _.
      (emitted camera_offline es ≡ length (run config (start new_pipeline) broken_once).delays)
      × (emitted camera_recovered es ≡ 0))
run-flapping_example =
    run-flapping config broken_once runtime tenant_a (report CameraStatus.online) sent
      (camera_at CameraStatus.online) (world_with CameraStatus.online) sees_a
      (
        (refl, refl),
        (
          (refl, refl),
          ((refl, refl), ((refl, refl), ((refl, refl), ((refl, refl), ((refl, refl), tt))))),
        ),
      )
      (known_camera CameraStatus.online) online_is_up ordered_reports
