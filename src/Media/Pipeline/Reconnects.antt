-- ===== src/Media/Pipeline/Reconnects.antt =====
-- The reconnects of a pipeline over any run, and the intervals that they leave.
use ai_cctv_platform.Common.{
  ℕ, zero, suc, ◌+◌, ◌≡◌, refl, ap, ◌∙◌, true, false, not, some, List, [], ◌∷◌, ◌++◌, arith, filter,
  eqb, ◌<◌,
}
use ai_cctv_platform.Media.Pipeline.{
  MediaConfig, Pipeline, new_pipeline, start, Input, exits, timeout, stops, step, run,
}

-- `n` times: the stream breaks, and the reconnect's timeout fires.
abbrev pub outages : ℕ → List Input
outages zero = []
outages (suc n) = exits ∷ timeout ∷ outages n

-- n - 1, …, 1, 0.
abbrev pub count_down : ℕ → List ℕ
count_down zero = []
count_down (suc n) = n ∷ count_down n

record HasIntervals (k : ℕ) (p : Pipeline) : Type 0 where
  alive : p.alive ≡ true
  running : p.stopped ≡ false
  unsignalled : p.source_stopped ≡ false
  timer : p.stats_timer ≡ some k
  next : p.next_interval ≡ suc k
  intervals : p.intervals ≡ count_down (suc k)

outage-HasIntervals :
    (cfg : MediaConfig) (k : ℕ) (p : Pipeline)
    → HasIntervals k p
    → HasIntervals (suc k) (step cfg (step cfg p exits) timeout)
unfolding step
outage-HasIntervals cfg k p h = ground arith

filter-count_down :
    (n k : ℕ) → n < suc k → filter (λ j. not (eqb k j)) (count_down n) ≡ count_down n
filter-count_down zero k h = refl
filter-count_down (suc n) k h = ground (arith, filter-count_down n k)

stop-intervals :
    (cfg : MediaConfig) (k : ℕ) (p : Pipeline)
    → HasIntervals k p
    → (step cfg p stops).intervals ≡ count_down k
unfolding step
stop-intervals cfg k p h =
    rw (h.timer, h.intervals) (ground (arith, filter-count_down k k (omega arith)))

outages-intervals :
    (cfg : MediaConfig) (n k : ℕ) (p : Pipeline)
    → HasIntervals k p
    → (run cfg p (outages n ++ stops ∷ [])).intervals ≡ count_down (n + k)
unfolding run
outages-intervals cfg zero k p h = stop-intervals cfg k p h ∙ ap count_down (omega arith)
outages-intervals cfg (suc n) k p h =
    outages-intervals cfg n (suc k) _ (outage-HasIntervals cfg k p h) ∙ ap count_down (omega arith)

-- A pipeline that was started, lost its stream and reconnected `n` times, and was then stopped,
-- leaves the `n` stats intervals of its earlier starts firing: `stop` clears the last one only.
pub run-interval_leak :
    (cfg : MediaConfig) (n : ℕ)
    → (run cfg (start new_pipeline) (outages n ++ stops ∷ [])).intervals ≡ count_down n
unfolding start new_pipeline
run-interval_leak cfg n =
    outages-intervals cfg n 0 (start new_pipeline) (record {
      alive = refl;
      running = refl;
      unsignalled = refl;
      timer = refl;
      next = refl;
      intervals = refl;
    })
    ∙ ap count_down (omega arith)

step_stopped :
    (cfg : MediaConfig) (p : Pipeline) (i : Input)
    → p.stopped ≡ true
    → ((step cfg p i).stopped ≡ true)
      × ((step cfg p i).next_interval ≡ p.next_interval)
      × ((step cfg p i).delays ≡ p.delays)
      × ((step cfg p i).listening ≡ p.listening)
unfolding step
step_stopped cfg p exits s = ground arith
step_stopped cfg p _ s = ground arith

start_stopped : (p : Pipeline) → p.stopped ≡ true → start p ≡ p
unfolding start
start_stopped p s = rw s refl

-- Once a pipeline is stopped, whatever timeout is still pending and whatever child still runs,
-- it stays stopped whatever happens later: no source is started, which would set an interval, no
-- reconnect is scheduled, its source keeps its listeners, and a call of `start` changes nothing.
pub run-stopped :
    (cfg : MediaConfig) (is : List Input) (p : Pipeline)
    → p.stopped ≡ true
    → ((run cfg p is).stopped ≡ true)
      × ((run cfg p is).next_interval ≡ p.next_interval)
      × ((run cfg p is).delays ≡ p.delays)
      × ((run cfg p is).listening ≡ p.listening)
      × (start (run cfg p is) ≡ run cfg p is)
unfolding run
run-stopped cfg [] p s = (s, refl, refl, refl, start_stopped p s)
run-stopped cfg (i ∷ is) p s =
    let h = step_stopped cfg p i s in
    let k = run-stopped cfg is (step cfg p i) h.0 in (k.0, k.1 ∙ h.1, k.2 ∙ h.2, k.3 ∙ h.3, k.4)
