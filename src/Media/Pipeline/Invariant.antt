-- ===== src/Media/Pipeline/Invariant.antt =====
-- What holds of a pipeline between two turns of the event loop, and once it is stopped.
use ai_cctv_platform.Common.{
  ℕ, ◌+◌, ◌≤◌, ◌≡◌, true, none, List, [], ◌∷◌, ◌++◌, arith, length, length-append, All, min,
}
use ai_cctv_platform.Media.Pipeline.{
  MediaConfig, Pipeline, new_pipeline, start, backoff, push_latency, shift_past_fifty, Input, exits,
  inferred, step, run,
}

-- The delay of a first attempt.
abbrev pub base_delay : MediaConfig → ℕ
base_delay cfg = min cfg.reconnect_max_ms cfg.reconnect_base_ms

pub record IsValid (cfg : MediaConfig) (p : Pipeline) : Type 0 where
  pub fresh : p.alive ≡ true → p.reconnect_attempts ≡ 0
  pub still : p.stopped ≡ true → (p.source_stopped ≡ true) × (p.reconnect_timer ≡ none)
  pub delays : All (λ d. d ≡ base_delay cfg) p.delays
  pub latencies : length p.latencies ≤ 50

shift_past_fifty_bound : (xs : List ℕ) → length xs ≤ 51 → length (shift_past_fifty xs) ≤ 50
unfolding shift_past_fifty
shift_past_fifty_bound [] h = omega arith
shift_past_fifty_bound (x ∷ xs) h = ground arith

push_latency_bound : (ms : ℕ) (xs : List ℕ) → length xs ≤ 50 → length (push_latency ms xs) ≤ 50
unfolding push_latency
push_latency_bound ms xs h =
    shift_past_fifty_bound (xs ++ ms ∷ []) (omega (arith, length-append xs (ms ∷ [])))

backoff_first : (cfg : MediaConfig) (n : ℕ) → n ≡ 0 → backoff cfg (n + 1) ≡ base_delay cfg
unfolding backoff
backoff_first cfg n e = rw e (omega arith)

pub step-IsValid :
    (cfg : MediaConfig) (p : Pipeline) (i : Input) → IsValid cfg p → IsValid cfg (step cfg p i)
unfolding step
step-IsValid cfg p exits v = ground (arith, backoff_first cfg p.reconnect_attempts)
step-IsValid cfg p (inferred ms found) v = ground (arith, push_latency_bound ms p.latencies)
step-IsValid cfg p _ v = ground arith

-- Any run of the event loop keeps `IsValid`: while the child runs the attempts are zero, a stopped
-- pipeline has stopped its source and has no pending timeout, every delay so far was a first attempt's, and at
-- most fifty latencies are kept.
pub run-IsValid :
    (cfg : MediaConfig) (p : Pipeline) (is : List Input)
    → IsValid cfg p
    → IsValid cfg (run cfg p is)
unfolding run
run-IsValid cfg p [] v = v
run-IsValid cfg p (i ∷ is) v = run-IsValid cfg (step cfg p i) is (step-IsValid cfg p i v)

pub started-IsValid : (cfg : MediaConfig) → IsValid cfg (start new_pipeline)
unfolding start new_pipeline
started-IsValid cfg = ground arith
