-- ===== src/Media/Pipeline.antt =====
-- server/src/media/worker.ts: `CameraPipeline`, one camera's stream, its reconnects and inference.
-- The process, the timers and the promises are inputs: each is a step of the event loop.
pub mod Invariant
pub mod Reconnects
pub mod Reports
mod Examples
use ai_cctv_platform.Common.{
  ℕ, ◌+◌, ◌-◌, ◌*◌, ◌^◌, min, Bool, true, false, ◌&&◌, ◌||◌, not, Option, some, none, List, [], ◌∷◌,
  ◌++◌, if◌then◌else◌, ltb, eqb, length, filter,
}
use ai_cctv_platform.Media.Status.{CameraStatus}

pub record MediaConfig : Type 0 where
  pub reconnect_base_ms : ℕ
  pub reconnect_max_ms : ℕ
  pub inference_enabled : Bool

-- A call of `reportHealth`, with the flag that counts a reconnect.
pub record HealthReport : Type 0 where
  pub status : CameraStatus
  pub increment_reconnect : Bool

-- What one flush sends: frames, detections and failures.
pub record StatsReport : Type 0 where
  pub frames_processed : ℕ
  pub detections : ℕ
  pub inference_failures : ℕ

pub record Pipeline : Type 0 where
  pub alive : Bool  -- the FFmpeg child of the last source runs
  pub listening : Bool  -- the last source has the pipeline's listeners
  pub source_stopped : Bool  -- `stop` was called on the last source
  pub reconnect_attempts : ℕ
  pub reconnect_timer : Option ℕ  -- the delay of the timeout that is pending
  pub stopped : Bool
  pub in_flight : Bool
  pub submitting : Bool  -- the call in flight awaits the submission of its detections
  pub frames : ℕ
  pub detections : ℕ
  pub failures : ℕ
  pub latencies : List ℕ
  pub stats_timer : Option ℕ
  pub intervals : List ℕ  -- the intervals that the runtime keeps firing
  pub next_interval : ℕ
  pub delays : List ℕ  -- the delays of all timeouts set so far, the last one first
  pub reports : List HealthReport  -- the last one first
  pub stats : List StatsReport

unfoldable pub new_pipeline : Pipeline
new_pipeline = record {
  alive = false;
  listening = false;
  source_stopped = false;
  reconnect_attempts = 0;
  reconnect_timer = none;
  stopped = false;
  in_flight = false;
  submitting = false;
  frames = 0;
  detections = 0;
  failures = 0;
  latencies = [];
  stats_timer = none;
  intervals = [];
  next_interval = 0;
  delays = [];
  reports = [];
  stats = [];
}

unfoldable pub report : CameraStatus → Bool → Pipeline → Pipeline
report status increment p = record p {
  reports = record { status = status; increment_reconnect = increment } ∷ p.reports;
}

-- `start`: a new source is spawned and listened to, the attempts are reset, and an interval is set.
unfoldable pub start : Pipeline → Pipeline
unfolding report
start p = if p.stopped then p else record (report CameraStatus.connecting false p) {
  alive = true;
  listening = true;
  source_stopped = false;
  reconnect_attempts = 0;
  stats_timer = some p.next_interval;
  intervals = p.next_interval ∷ p.intervals;
  next_interval = p.next_interval + 1;
}

unfoldable pub backoff : MediaConfig → ℕ → ℕ
backoff cfg attempts = min cfg.reconnect_max_ms (cfg.reconnect_base_ms * 2 ^ min (attempts - 1) 6)

unfoldable pub schedule_reconnect : MediaConfig → Pipeline → Pipeline
unfolding report backoff
schedule_reconnect cfg p =
    if p.stopped
    then p
    else let attempts = p.reconnect_attempts + 1 in
      let delay = backoff cfg attempts in
      record (report CameraStatus.reconnecting false p) {
        reconnect_attempts = attempts;
        reconnect_timer = some delay;
        delays = delay ∷ p.delays;
      }

-- The child's `exit`: a source that was stopped passes it on to nobody.
unfoldable pub on_exit : MediaConfig → Pipeline → Pipeline
unfolding report schedule_reconnect
on_exit cfg p =
    if p.source_stopped
    then record p { alive = false }
    else schedule_reconnect cfg (report CameraStatus.offline true (record p { alive = false }))

-- The timeout's callback.
unfoldable pub on_timeout : Pipeline → Pipeline
unfolding start
on_timeout p =
    if p.stopped
    then record p { reconnect_timer = none }
    else start (record p { reconnect_timer = none; listening = false })

-- `onFrame` up to the call of the inference service.
unfoldable pub on_frame : MediaConfig → Pipeline → Pipeline
unfolding report
on_frame cfg p =
    let counted = record p { frames = p.frames + 1 } in
    let seen = if eqb counted.frames 1 then report CameraStatus.online false counted else counted in
    if not cfg.inference_enabled || seen.in_flight then seen else record seen { in_flight = true }

-- The last fifty latencies: `push`, then `shift` past fifty.
unfoldable pub shift_past_fifty : List ℕ → List ℕ
shift_past_fifty [] = []
shift_past_fifty (x ∷ xs) = if ltb 50 (length (x ∷ xs)) then xs else x ∷ xs

unfoldable pub push_latency : ℕ → List ℕ → List ℕ
unfolding shift_past_fifty
push_latency ms latencies = shift_past_fifty (latencies ++ ms ∷ [])

-- The service answered with `found` detections after `ms`; they are submitted one after the other.
unfoldable pub on_inferred : ℕ → ℕ → Pipeline → Pipeline
unfolding report push_latency
on_inferred ms found p = record (report CameraStatus.online false p) {
  detections = p.detections + found;
  latencies = push_latency ms p.latencies;
  in_flight = ltb 0 found;
  submitting = ltb 0 found;
}

-- The last submission is answered, or has failed, which is logged only.
unfoldable pub on_submitted : Pipeline → Pipeline
on_submitted p = record p { in_flight = false; submitting = false }

unfoldable pub on_inference_failed : Pipeline → Pipeline
on_inference_failed p = record p { failures = p.failures + 1; in_flight = false }

unfoldable pub flush_stats : Pipeline → Pipeline
flush_stats p =
    let reset = record p { frames = 0; detections = 0; failures = 0 } in
    if eqb p.frames 0 && eqb p.detections 0 && eqb p.failures 0 then reset else record reset {
      stats =
          record {
            frames_processed = p.frames;
            detections = p.detections;
            inference_failures = p.failures;
          }
          ∷ p.stats;
    }

abbrev cleared : Option ℕ → List ℕ → List ℕ
cleared none xs = xs
cleared (some i) xs = filter (λ j. not (eqb i j)) xs

unfoldable pub stop : Pipeline → Pipeline
stop p = record p {
  stopped = true;
  reconnect_timer = none;
  intervals = cleared p.stats_timer p.intervals;
  source_stopped = true;
}

pub data Input : Type 0 where
  exits timeout frame inference_failed submitted flush stops : Input
  inferred : ℕ → ℕ → Input

-- One turn of the event loop. An input that cannot occur in the state changes nothing: the child
-- exits once, a timeout fires while it is pending, a frame comes to a source with listeners, and an
-- answer to a call in flight. `stop` only signals the child: its exit, and frames that its output
-- still holds, come later, and frames come after an exit too.
unfoldable pub step : MediaConfig → Pipeline → Input → Pipeline
unfolding on_exit on_timeout on_frame on_inferred on_submitted on_inference_failed flush_stats stop
step cfg p exits = if p.alive then on_exit cfg p else p
step cfg p timeout = elim p.reconnect_timer [ none ↦ p | some _ ↦ on_timeout p ]
step cfg p frame = if p.listening then on_frame cfg p else p
step cfg p (inferred ms found) =
    if p.in_flight && not p.submitting then on_inferred ms found p else p
step cfg p inference_failed = if p.in_flight && not p.submitting then on_inference_failed p else p
step cfg p submitted = if p.submitting then on_submitted p else p
step cfg p flush = flush_stats p
step cfg p stops = stop p

unfoldable pub run : MediaConfig → Pipeline → List Input → Pipeline
unfolding step
run cfg p [] = p
run cfg p (i ∷ is) = run cfg (step cfg p i) is
