-- ===== src/Access/Tokens.antt =====
-- server/src/lib/crypto.ts, server/src/services/stream.service.ts and the signed URLs of
-- server/src/services/storage.service.ts: session ids and tokens under an HMAC.
pub mod Laws
pub mod Examples
use Prim.Native.Char.{code}
use Prim.Native.String.{[], ◌∷◌}
use ai_cctv_platform.Common.{
  ℕ, ◌+◌, Bool, true, false, ◌&&◌, not, String, Option, some, none, List, ◌⧺◌, ◌==◌, ltb, eqb,
  length, if◌then◌else◌,
}
use ai_cctv_platform.Access.Directory.{Primitives}
use ai_cctv_platform.Tenancy.Isolation.{key_belongs_to_org}

unfoldable pub timing_safe_equal : List ℕ → List ℕ → Bool
timing_safe_equal List.[] List.[] = true
timing_safe_equal (List.◌∷◌ x xs) (List.◌∷◌ y ys) = eqb x y && timing_safe_equal xs ys
timing_safe_equal _ _ = false

-- `s.lastIndexOf(c)`, and what stands before and after it.
unfoldable pub split_last : ℕ → String → Option (String × String)
split_last n [] = none
split_last n (c ∷ s) = elim (split_last n s) [
  | some (before, after) ↦ some (c ∷ before, after)
  | none ↦ if eqb (code c) n then some ([], s) else none
]

pub record SignedUrlParams : Type 0 where
  pub organization_id : String
  pub storage_key : String
  pub expires_at : ℕ

pub record StreamParams : Type 0 where
  pub organization_id : String
  pub camera_id : String
  pub site_id : String
  pub session_id : String
  pub expires_at : ℕ

-- `key` is the key of the HMAC, `now` the current second.
module _ (prims : Primitives) (key : String) where
  unfoldable pub equal_hex : String → String → Bool
  unfolding timing_safe_equal
  equal_hex a b =
      let x = prims.from_hex a in
      let y = prims.from_hex b in eqb (length x) (length y) && timing_safe_equal x y

  unfoldable pub sign_session_id : String → String
  sign_session_id session_id = session_id ⧺ "." ⧺ prims.hmac key session_id

  -- The test of the signature, once the dot is found.
  unfoldable pub check_signature : Option (String × String) → Option String
  unfolding equal_hex
  check_signature none = none
  check_signature (some (session_id, sig)) =
      if equal_hex sig (prims.hmac key session_id) then some session_id else none

  unfoldable pub verify_session_id : String → Option String
  unfolding split_last check_signature
  verify_session_id signed = check_signature (split_last b'.' signed)

  unfoldable pub storage_payload : SignedUrlParams → String
  storage_payload p = p.organization_id ⧺ ":" ⧺ p.storage_key ⧺ ":" ⧺ prims.decimal p.expires_at

  unfoldable pub sign_storage_token : SignedUrlParams → String
  unfolding storage_payload
  sign_storage_token p = prims.hmac key (storage_payload p)

  unfoldable pub verify_storage_token : ℕ → SignedUrlParams → String → Bool
  unfolding sign_storage_token equal_hex
  verify_storage_token now p token =
      if ltb p.expires_at now then false else equal_hex (sign_storage_token p) token

  unfoldable pub verify_evidence_url : ℕ → SignedUrlParams → String → Bool
  unfolding verify_storage_token
  verify_evidence_url now p token =
      if not (key_belongs_to_org p.storage_key p.organization_id)
      then false
      else verify_storage_token now p token

  unfoldable pub stream_payload : StreamParams → String
  stream_payload p =
      p.organization_id
      ⧺ ":"
      ⧺ p.camera_id
      ⧺ ":"
      ⧺ p.site_id
      ⧺ ":"
      ⧺ p.session_id
      ⧺ ":"
      ⧺ prims.decimal p.expires_at

  unfoldable pub sign_stream_token : StreamParams → String
  unfolding stream_payload
  sign_stream_token p = prims.hmac key (stream_payload p)

  unfoldable pub verify_stream_token : ℕ → StreamParams → String → Bool
  unfolding sign_stream_token
  verify_stream_token now p token =
      if ltb p.expires_at now then false else sign_stream_token p == token
