-- ===== src/Api/Internal/Examples.antt =====
-- A test of the worker's gate, and its theorem at a concrete token.
use ai_cctv_platform.Common.{
  ◌≡◌, ◌≢◌, ◌↔◌, refl, String, ◌==◌, eq_iff, some, none, [], ◌∷◌, arith, coalesce, if◌then◌else◌, ℕ,
  List,
}
use ai_cctv_platform.Access.Errors.{forbidden, unauthorized}
use ai_cctv_platform.Access.Directory.{passes, fails}
use ai_cctv_platform.Tenancy.World.{Runtime}
use ai_cctv_platform.Tenancy.Fixtures.{runtime}
use ai_cctv_platform.Api.Internal.{after_prefix, check_worker_token}
use ai_cctv_platform.Api.Internal.Token.{check_worker_token_sound}

abbrev token : String
token = "tok"

abbrev bytes : String → List ℕ
bytes s = if s == token then 1 ∷ [] else 2 ∷ []

abbrev server : Runtime
server = record runtime { utf8 = bytes }

let_in : check_worker_token server (some "Bearer tok") token ≡ passes tt
unfolding check_worker_token
let_in = refl

kept_out :
    check_worker_token server (some "Bearer tik") token ≡ fails (forbidden "Invalid worker token")
unfolding check_worker_token
kept_out = refl

no_header : check_worker_token server none token ≡ fails (unauthorized "Worker token required")
unfolding check_worker_token
no_header = refl

only_token : (s : String) → bytes s ≡ bytes token → s ≡ token
only_token s h = ground (arith, h, eq_iff s token)

check_worker_token_sound_example :
    check_worker_token server (some "Bearer tok") token ≡ passes tt
    ↔ (after_prefix "Bearer " (coalesce (some "Bearer tok") "") ≡ token) × (token ≢ "")
check_worker_token_sound_example =
    check_worker_token_sound server (some "Bearer tok") token only_token
