-- ===== src/Media/Worker.antt =====
-- server/src/media/worker.ts: `MediaWorker`, which keeps one pipeline per enabled camera, and what a
-- pipeline submits. A run of `reconcile` is taken without another between its awaits.
mod Examples
pub mod Streams
pub mod Blocked
use ai_cctv_platform.Common.{
  ℕ, String, Bool, true, false, ◌||◌, Option, none, some, List, [], ◌∷◌, ◌++◌, ◌==◌, filter, find,
  includes, is_some, leb, length, map_get, map_set, map, if◌then◌else◌,
}
use ai_cctv_platform.Access.Directory.{Checked, passes, fails}
use ai_cctv_platform.Ai.Rules.{RawClass}
use ai_cctv_platform.Api.Secrets.{decrypt_secret}
use ai_cctv_platform.Media.Pipeline.{Pipeline, new_pipeline, start, stop}
use ai_cctv_platform.Tenancy.World.{World, Runtime, Camera, Credentials}

-- A pipeline with what its constructor was given.
pub record Running : Type 0 where
  pub cam : Camera
  pub username : Option String
  pub password : Option String
  pub pipeline : Pipeline

-- The `pipelines` map, the pipelines that were dropped from it, and whether the poll timer is set.
pub record MediaWorker : Type 0 where
  pub pipelines : List (String × Running)
  pub retired : List Pipeline
  pub polling : Bool

unfoldable pub enabled_cameras : World → List Camera
enabled_cameras w = filter (λ (c : Camera). c.enabled) w.cameras

unfoldable pub camera_credentials : String → World → Option Credentials
camera_credentials id w = find (λ (r : Credentials). r.camera_id == id) w.credentials

abbrev pub both : Checked String → Checked String → Checked (Option String × Option String)
both (fails e) p = fails e
both (passes u) (fails e) = fails e
both (passes u) (passes p) = passes (some u, some p)

abbrev pub open_credentials : Runtime → Option Credentials → Checked (Option String × Option String)
open_credentials rt none = passes (none, none)
open_credentials rt (some r) =
    both (decrypt_secret rt r.username_enc) (decrypt_secret rt r.password_enc)

abbrev pub launched :
    Camera
    → Checked (Option String × Option String)
    → List (String × Running)
    → Checked (List (String × Running))
launched cam (fails e) pipelines = fails e
launched cam (passes (username, password)) pipelines = passes (
    map_set pipelines cam.id (record {
      cam = cam;
      username = username;
      password = password;
      pipeline = start new_pipeline;
    }))

-- What the loop does for one camera: nothing where it has a pipeline.
unfoldable pub launch :
    Runtime → World → Camera → List (String × Running) → Checked (List (String × Running))
unfolding map_get map_set camera_credentials decrypt_secret new_pipeline start
launch rt w cam pipelines =
    if is_some (map_get pipelines cam.id)
    then passes pipelines
    else launched cam (open_credentials rt (camera_credentials cam.id w)) pipelines

-- `active.add(id)`.
abbrev pub add_active : String → List String → List String
add_active id active = if includes active id then active else active ++ id ∷ []

-- The loop over the cameras: the active ids, and the pipelines, also where it throws.
unfoldable pub launch_all :
    Runtime
    → World
    → ℕ
    → List Camera
    → List String
    → List (String × Running)
    → Checked (List String) × List (String × Running)
unfolding launch
launch_all rt w limit [] active pipelines = (passes active, pipelines)
launch_all rt w limit (cam ∷ cams) active pipelines = elim (leb limit (length active)) [
  | true ↦ (passes active, pipelines)
  | false ↦ elim (launch rt w cam pipelines) [
    | fails e ↦ (fails e, pipelines)
    | passes pipelines' ↦ launch_all rt w limit cams (add_active cam.id active) pipelines'
  ]
]

-- The loop that stops what is not active.
unfoldable pub keep_active : List String → List (String × Running) → List (String × Running)
keep_active active [] = []
keep_active active ((id, p) ∷ entries) =
    let rest = keep_active active entries in if includes active id then (id, p) ∷ rest else rest

unfoldable pub stop_inactive : List String → List (String × Running) → List Pipeline
unfolding stop
stop_inactive active [] = []
stop_inactive active ((id, p) ∷ entries) =
    let rest = stop_inactive active entries in
    if includes active id then rest else stop p.pipeline ∷ rest

abbrev pub settled :
    Checked (List String) × List (String × Running) → MediaWorker → Checked (Unit {0}) × MediaWorker
settled (fails e, pipelines) m = (fails e, record m { pipelines = pipelines })
settled (passes active, pipelines) m = (
  passes tt,
  record m {
    pipelines = keep_active active pipelines;
    retired = stop_inactive active pipelines ++ m.retired;
  },
)

-- `limit` is `maxConcurrentStreams`.
unfoldable pub reconcile : Runtime → ℕ → World → MediaWorker → Checked (Unit {0}) × MediaWorker
unfolding enabled_cameras launch_all keep_active stop_inactive
reconcile rt limit w m = settled (launch_all rt w limit (enabled_cameras w) [] m.pipelines) m

-- `start`: a rejected run is not waited for, and the timer is set either way.
unfoldable pub start_worker : Runtime → ℕ → World → MediaWorker → MediaWorker
unfolding reconcile
start_worker rt limit w m = record ((reconcile rt limit w m).1) { polling = true }

unfoldable pub stop_worker : MediaWorker → MediaWorker
unfolding stop
stop_worker m = record {
  pipelines = [];
  retired = map (λ (e : String × Running). stop e.1.pipeline) m.pipelines ++ m.retired;
  polling = false;
}

unfoldable pub vehicle_labels : List String
vehicle_labels = "CAR" ∷ "TRUCK" ∷ "BUS" ∷ "MOTORCYCLE" ∷ "BICYCLE" ∷ []

-- `upper` is `toUpperCase`.
unfoldable pub map_label_to_raw_class : (String → String) → String → Option RawClass
unfolding vehicle_labels
map_label_to_raw_class upper label =
    let l = upper label in
    if l == "PERSON"
    then some RawClass.person
    else if includes vehicle_labels l
    then some RawClass.vehicle
    else if l == "FIRE"
    then some RawClass.fire
    else if l == "SMOKE"
    then some RawClass.smoke
    else none
