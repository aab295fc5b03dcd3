-- ===== src/Access/Tokens/Examples.antt =====
-- Tests of the tokens, and their theorems at concrete inputs.
use Prim.Native.Char.{code}
use Prim.Native.String.{[], ◌∷◌}
use ai_cctv_platform.Common.{
  ℕ, ◌≤◌, ◌≡◌, refl, true, String, none, List, arith, ◌==◌, eqb, if◌then◌else◌,
}
use ai_cctv_platform.Tenancy.Isolation.{key_belongs_to_org}
use ai_cctv_platform.Access.Directory.{Primitives}
use ai_cctv_platform.Access.Tokens.{
  SignedUrlParams, StreamParams, sign_session_id, verify_session_id, verify_stream_token,
}
use ai_cctv_platform.Access.Tokens.Laws.{
  verify_evidence_url-sign, verify_evidence_url_replay, verify_stream_token_replay,
}

abbrev pub codes : String → List ℕ
codes [] = List.[]
codes (c ∷ s) = List.◌∷◌ (code c) (codes s)

-- A digest that shows its text's first character only.
abbrev digest : String → String
digest [] = "0"
digest (c ∷ s) = if eqb (code c) b's' then "5e" else "7a"

abbrev pub prims : Primitives
prims = record {
  hmac = λ key text. digest text;
  from_hex = codes;
  verify_password = λ hash plain. hash == plain;
  normalize_email = λ s. s;
  lower = λ s. s;
  decimal = λ n. "7";
  session_uuid = λ n. "s9";
}

signed : sign_session_id prims "k" "s1" ≡ "s1.5e"
unfolding sign_session_id
signed = refl

forged : verify_session_id prims "k" "s1.7a" ≡ none
unfolding verify_session_id
forged = refl

abbrev object : SignedUrlParams
object = record {
  organization_id = "a";
  storage_key = "organizations/a/sites/s/cameras/c/events/e/f.jpg";
  expires_at = 900;
}

verify_evidence_url_replay_example :
    ("a" ≡ object.organization_id)
    × (object.storage_key ≡ object.storage_key)
    × (prims.decimal 900 ≡ prims.decimal object.expires_at)
    × (800 ≤ object.expires_at)
    × (key_belongs_to_org object.storage_key "a" ≡ true)
unfolding key_belongs_to_org
verify_evidence_url_replay_example =
    verify_evidence_url_replay prims "k" 800 object object (ground arith, tt) (ground arith, tt)
      (ground arith, tt) (ground arith, tt) (λ e. refl)
      (verify_evidence_url-sign prims "k" 800 object refl (omega arith))

abbrev stream : StreamParams
stream = record {
  organization_id = "a";
  camera_id = "c1";
  site_id = "s1";
  session_id = "x";
  expires_at = 900;
}

verify_stream_token_replay_example :
    ("a" ≡ stream.organization_id) × ("c1" ≡ stream.camera_id) × (800 ≤ stream.expires_at)
unfolding verify_stream_token
verify_stream_token_replay_example =
    verify_stream_token_replay prims "k" 800 stream stream (ground arith, tt) (ground arith, tt)
      (ground arith, (ground arith, tt)) (ground arith, (ground arith, tt)) (λ e. refl) refl
