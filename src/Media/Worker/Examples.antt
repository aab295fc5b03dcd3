-- ===== src/Media/Worker/Examples.antt =====
-- Tests of the reconciliation, and its theorems at concrete states.
use ai_cctv_platform.Common.{map_get, ◌≡◌, ◌≤◌, refl, some, false, [], ◌∷◌, arith, length}
use ai_cctv_platform.Access.Errors.{other}
use ai_cctv_platform.Access.Directory.{passes, fails}
use ai_cctv_platform.Ai.Rules.{RawClass}
use ai_cctv_platform.Api.Secrets.{sealed_text, decrypt_secret}
use ai_cctv_platform.Media.Status.{online}
use ai_cctv_platform.Media.Worker.{
  MediaWorker, enabled_cameras, camera_credentials, reconcile, map_label_to_raw_class,
}
use ai_cctv_platform.Media.Worker.Streams.{IsKeyed, reconcile-limit}
use ai_cctv_platform.Media.Worker.Blocked.{reconcile_blocked}
use ai_cctv_platform.Tenancy.World.{World, Credentials}
use ai_cctv_platform.Tenancy.Fixtures.{world_with, camera_at, runtime}

abbrev idle : MediaWorker
idle = record { pipelines = []; retired = []; polling = false }

abbrev start : World
start = world_with online

idle-IsKeyed : IsKeyed idle
idle-IsKeyed = record { distinct = tt }

ends : (reconcile runtime 1 start idle).0 ≡ passes tt
unfolding reconcile
ends = refl

reconcile-limit_example :
    IsKeyed ((reconcile runtime 1 start idle).1)
    × (length (reconcile runtime 1 start idle).1.pipelines ≤ 1)
reconcile-limit_example = reconcile-limit runtime start 1 idle idle-IsKeyed ends

started : length (reconcile runtime 1 start idle).1.pipelines ≡ 1
unfolding reconcile
started = refl

-- The camera's credentials with a user name and no password.
abbrev no_password : Credentials
no_password = record {
  organization_id = "a";
  camera_id = "c1";
  username_enc = "iv.t.user";
  password_enc = sealed_text runtime 3 "";
  updated_at = 0;
}

abbrev guarded : World
guarded = record start { credentials = no_password ∷ [] }

reconcile_blocked_example :
    reconcile runtime 4 guarded idle ≡ (fails (other "Malformed encrypted secret"), idle)
unfolding enabled_cameras camera_credentials decrypt_secret map_get
reconcile_blocked_example =
    reconcile_blocked runtime 4 guarded idle (camera_at online) [] no_password "user" 3
      (omega arith) refl refl refl refl refl refl (omega arith, (omega arith, tt)) (omega arith, tt)

trucks : map_label_to_raw_class (λ s. s) "TRUCK" ≡ some RawClass.vehicle
unfolding map_label_to_raw_class
trucks = refl
