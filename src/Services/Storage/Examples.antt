-- ===== src/Services/Storage/Examples.antt =====
-- Tests of evidence keys, and their theorems at concrete inputs.
use ai_cctv_platform.Common.{◌≡◌, ◌≢◌, refl, String, eq_iff, arith}
use ai_cctv_platform.Services.Storage.{safe_name}

traversal : safe_name "../x y.jpg" ≡ ".._x_y.jpg"
unfolding safe_name
traversal = refl

abbrev org_a : String
org_a = "a"

abbrev org_b : String
org_b = "b"

apart : org_a ≢ org_b
apart = ground (arith, eq_iff "a" "b")
