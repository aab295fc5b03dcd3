-- ===== src/Api/Secrets/Examples.antt =====
-- The cipher's theorem at a concrete secret.
use ai_cctv_platform.Common.{◌≡◌, ◌≢◌, refl, String, arith, eq_iff}
use ai_cctv_platform.Access.Errors.{other}
use ai_cctv_platform.Access.Directory.{passes, fails}
use ai_cctv_platform.Tenancy.Fixtures.{runtime}
use ai_cctv_platform.Api.Secrets.{sealed_text, decrypt_secret}
use ai_cctv_platform.Api.Secrets.Laws.{decrypt_secret-encrypt}

abbrev iv : String
iv = "iv"

abbrev tag : String
tag = "t"

abbrev password : String
password = "pw"

malformed : decrypt_secret runtime "iv.t" ≡ fails (other "Malformed encrypted secret")
unfolding decrypt_secret
malformed = refl

some_iv : iv ≢ ""
some_iv = ground (arith, eq_iff iv "")

some_tag : tag ≢ ""
some_tag = ground (arith, eq_iff tag "")

some_text : password ≢ ""
some_text = ground (arith, eq_iff password "")

decrypt_secret-encrypt_example : decrypt_secret runtime (sealed_text runtime 0 "pw") ≡ passes "pw"
decrypt_secret-encrypt_example =
    decrypt_secret-encrypt runtime 0 "pw" refl refl (omega arith, (omega arith, tt))
      (omega arith, tt) (omega arith, (omega arith, tt)) some_iv some_tag some_text
