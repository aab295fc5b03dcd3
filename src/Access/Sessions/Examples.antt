-- ===== src/Access/Sessions/Examples.antt =====
-- The theorems on a login at concrete inputs.
use ai_cctv_platform.Common.{◌≡◌, refl, true, In}
use ai_cctv_platform.Access.Directory.{UserRow, passes}
use ai_cctv_platform.Access.Tokens.Examples.{prims}
use ai_cctv_platform.Access.Sessions.{auth_user, login}
use ai_cctv_platform.Access.Sessions.Laws.{login_sound}
use ai_cctv_platform.Access.Guards.Examples.{user, dir}

logged_in : login prims "o@a" "pw" dir ≡ passes (auth_user user)
unfolding login
logged_in = refl

login_sound_example :
    (r : UserRow) × In r dir.users
    × (prims.lower r.email ≡ prims.normalize_email "o@a")
    × (prims.verify_password r.password_hash "pw" ≡ true)
    × (auth_user user ≡ auth_user r)
login_sound_example = login_sound prims "o@a" "pw" dir (auth_user user) logged_in
