-- ===== src/Api/Examples.antt =====
-- Tests of the routes and of jobs, and their theorems at concrete inputs.
use ai_cctv_platform.Common.{
  ◌≡◌, ◌≢◌, ◌≤◌, refl, false, String, none, some, [], ◌∷◌, In, here, there, Lacks, arith, eq_iff,
}
use ai_cctv_platform.Access.Errors.{not_found, forbidden}
use ai_cctv_platform.Access.Rbac.{operator, viewer}
use ai_cctv_platform.Access.Directory.{MemberRow, active}
use ai_cctv_platform.Access.Sessions.{Membership}
use ai_cctv_platform.Access.Tokens.Examples.{prims}
use ai_cctv_platform.Access.Guards.{RequestContext}
use ai_cctv_platform.Access.Guards.Examples.{dir, context}
use ai_cctv_platform.Ai.Types.{person_detection, resolved, is_safety_security_type}
use ai_cctv_platform.Media.Status.{online}
use ai_cctv_platform.Tenancy.World.{World, Camera, Member}
use ai_cctv_platform.Tenancy.Rls.{
  ok, err, world_of, run_handlers, run_statements, org_visible, select,
}
use ai_cctv_platform.Tenancy.Isolation.{view}
use ai_cctv_platform.Tenancy.Fixtures.{world_with, runtime, clock_at, tenant_a}
use ai_cctv_platform.Services.Resource.{require_tenant_resource}
use ai_cctv_platform.Services.Notification.{dispatch_notifications, audit}
use ai_cctv_platform.Api.Requests.{event_status, camera_update, Signing, route, handle}
use ai_cctv_platform.Api.Requests.Isolation.{handle-isolation}
use ai_cctv_platform.Api.Requests.Hidden.{NamesHidden, route_hidden}
use ai_cctv_platform.Api.Rows.{Hides}
use ai_cctv_platform.Api.Sites.{Caller}
use ai_cctv_platform.Api.Cameras.{CameraInput, CameraPatch, camera_limit, new_camera, create_camera}
use ai_cctv_platform.Api.Cameras.Limit.{create_camera-limit}
use ai_cctv_platform.Api.Members.{remove, serve_member, remove_member}
use ai_cctv_platform.Api.Members.Laws.{MembersAreUnique, serve_member_unique, remove_member_self}
use ai_cctv_platform.Api.Jobs.{AiJob, JobResult, process_ai_job}
use ai_cctv_platform.Api.Jobs.Once.{process_ai_job-once}
use ai_cctv_platform.Api.Isolation.{process_ai_job-isolation}

abbrev org_a : String
org_a = "a"

abbrev org_b : String
org_b = "b"

apart : org_a ≢ org_b
apart = ground (arith, eq_iff org_a org_b)

abbrev signing : Signing
signing = record { prims = prims; key = "k"; ttl = 300 }

abbrev start : World
start = world_with online

plain : (member : MemberRow) → In member dir.members → Lacks b'/' member.organization_id
plain m here = omega arith
plain m (there rest) = elim rest [ ]

stranger : (m : MemberRow) → In m dir.members → m.organization_id ≢ org_b
stranger m here = apart
stranger m (there rest) = elim rest [ ]

handle-isolation_example :
    view org_b (
      world_of (
        handle runtime
          (clock_at 400)
          signing
          "k"
          (some "s1.5e")
          dir
          none
          (event_status "e9" resolved)
          start))
    ≡ view org_b start
handle-isolation_example =
    handle-isolation runtime (clock_at 400) signing "k" (some "s1.5e") dir org_b plain (omega arith)
      none (event_status "e9" resolved) (λ ctx m passed stored own up. stranger m stored) start

abbrev rename : CameraPatch
rename = record {
  name = some "Mine";
  rtsp_host = none;
  rtsp_path = none;
  rtsp_port = none;
  onvif_endpoint = none;
  stream_profile = none;
  enabled = none;
  inference_enabled = none;
  inference_fps = none;
  username = none;
  password = none;
}

abbrev caller_b : Caller
caller_b = record { organization_id = "b"; user_id = "u2"; ip = none }

abbrev membership_b : Membership
membership_b = record {
  organization_id = "b";
  organization_name = "B";
  organization_slug = "b";
  role = operator;
  status = active;
}

abbrev context_b : RequestContext
context_b = record context { membership = some membership_b }

unseen :
    (c : Camera)
    → In c start.cameras
    → c.id ≡ "c1"
    → org_visible
        (record { user_id = "u1"; organization_id = "b"; is_platform_admin = false })
        c.organization_id
      ≡ false
unfolding org_visible
unseen c here e = refl
unseen c (there rest) e = elim rest [ ]

route_hidden_example :
    route runtime (clock_at 400) signing context_b caller_b (camera_update "c1" rename) start
    ≡ err (not_found "Not found") start
unfolding NamesHidden Hides
route_hidden_example =
    route_hidden runtime (clock_at 400) signing context_b caller_b membership_b refl start
      (camera_update "c1" rename) unseen

abbrev job : AiJob
job = record {
  organization_id = "a";
  camera_id = "c1";
  event_type = person_detection;
  confidence = 800;
  severity = none;
  correlation_id = some "k1";
  duration_ms = none;
  snapshot = none;
  metadata = none;
}

process_ai_job-isolation_example :
    view org_b (world_of (process_ai_job runtime (clock_at 400) job start)) ≡ view org_b start
process_ai_job-isolation_example =
    process_ai_job-isolation runtime (clock_at 400) job org_b apart (omega arith) (omega arith)
      start

abbrev result : JobResult
result = record { event_id = "e1"; organization_id = "a"; camera_id = "c1"; notified = 0 }

abbrev after_job : World
after_job = world_of (process_ai_job runtime (clock_at 400) job start)

abbrev after_again : World
after_again = world_of (process_ai_job runtime (clock_at 500) job after_job)

first_run : process_ai_job runtime (clock_at 400) job start ≡ ok result after_job
unfolding process_ai_job run_handlers run_statements dispatch_notifications
first_run = refl

second_run : process_ai_job runtime (clock_at 500) job after_job ≡ ok result after_again
unfolding process_ai_job run_handlers run_statements dispatch_notifications
second_run = refl

process_ai_job-once_example : after_again.events ≡ after_job.events
unfolding is_safety_security_type
process_ai_job-once_example =
    process_ai_job-once runtime (clock_at 400) (clock_at 500) job "k1" start after_job after_again
      result result refl refl first_run second_run

abbrev site_id : String
site_id = "00000000-0000-0000-0000-000000000001"

abbrev member_id : String
member_id = "00000000-0000-0000-0000-000000000002"

abbrev caller_a : Caller
caller_a = record { organization_id = "a"; user_id = "u1"; ip = none }

-- A site, a plan of two cameras, the caller and a viewer.
abbrev furnished : World
furnished = record start {
  sites =
      record {
        id = site_id;
        organization_id = "a";
        name = "HQ";
        address = none;
        timezone = "UTC";
        updated_at = 0;
      }
      ∷ [];
  subscriptions = record { organization_id = "a"; camera_limit = 2 } ∷ [];
  members =
      record {
        id = "m1";
        organization_id = "a";
        user_id = "u1";
        role = operator;
        status = active;
        updated_at = 0;
      }
      ∷ record {
        id = member_id;
        organization_id = "a";
        user_id = "u2";
        role = viewer;
        status = active;
        updated_at = 0;
      }
      ∷ [];
}

abbrev gate_camera : CameraInput
gate_camera = record {
  site_id = site_id;
  zone_id = none;
  name = "Gate";
  rtsp_host = none;
  rtsp_path = none;
  rtsp_port = none;
  onvif_endpoint = none;
  stream_profile = none;
  enabled = none;
  inference_enabled = none;
  inference_fps = none;
  source_kind = none;
  username = some "u";
  password = some "p";
}

abbrev with_camera : World
with_camera =
    world_of (create_camera runtime (clock_at 400) tenant_a caller_a gate_camera furnished)

abbrev new_row : Camera
new_row = new_camera runtime (clock_at 400) tenant_a caller_a "e1" gate_camera

camera_made :
    create_camera runtime (clock_at 400) tenant_a caller_a gate_camera furnished
    ≡ ok new_row with_camera
unfolding create_camera run_handlers run_statements audit require_tenant_resource
camera_made = refl

create_camera-limit_example :
    ((camera_limit tenant_a with_camera).0 ≡ some 2) × ((camera_limit tenant_a with_camera).1 ≤ 2)
unfolding camera_limit
create_camera-limit_example =
    create_camera-limit runtime (clock_at 400) tenant_a caller_a gate_camera furnished with_camera
      new_row 2 1 refl camera_made

-- The plan is full, and another camera is refused.
refused :
    create_camera runtime (clock_at 400) tenant_a caller_a gate_camera with_camera
    ≡ err (forbidden "Camera limit reached for your plan (7). Upgrade to add more.") with_camera
unfolding create_camera run_handlers run_statements audit require_tenant_resource
refused = refl

abbrev without_viewer : World
without_viewer =
    world_of (remove_member runtime (clock_at 400) tenant_a caller_a member_id furnished)

removed :
    remove_member runtime (clock_at 400) tenant_a caller_a member_id furnished
    ≡ ok tt without_viewer
unfolding remove_member run_handlers run_statements audit require_tenant_resource
removed = refl

abbrev self : Member
self = record {
  id = "m1";
  organization_id = "a";
  user_id = "u1";
  role = operator;
  status = active;
  updated_at = 0;
}

ids_apart :
    (m n : Member)
    → In m furnished.members
    → In n furnished.members
    → m.id ≡ n.id
    → m.user_id ≡ n.user_id
ids_apart m n here here e = refl
ids_apart m n here (there here) e = ground (arith, e, eq_iff "m1" member_id)
ids_apart m n (there here) here e = ground (arith, e, eq_iff member_id "m1")
ids_apart m n (there here) (there here) e = refl
ids_apart m n (there (there i)) j e = elim i [ ]
ids_apart m n here (there (there j)) e = elim j [ ]
ids_apart m n (there here) (there (there j)) e = elim j [ ]

remove_member_self_example : In self without_viewer.members
remove_member_self_example =
    remove_member_self runtime (clock_at 400) tenant_a caller_a member_id furnished without_viewer
      ids_apart removed self here refl

unique : MembersAreUnique tenant_a furnished
unfolding select org_visible
unique = record { once = λ u. ground (arith, eq_iff "u1" u, eq_iff "u2" u, eq_iff "u1" "u2") }

removed_request :
    serve_member runtime (clock_at 400) tenant_a caller_a (remove member_id) furnished
    ≡ ok tt without_viewer
unfolding serve_member
removed_request = removed

serve_member_unique_example : MembersAreUnique tenant_a without_viewer
serve_member_unique_example =
    serve_member_unique runtime (clock_at 400) tenant_a caller_a (remove member_id) furnished
      without_viewer unique removed_request
