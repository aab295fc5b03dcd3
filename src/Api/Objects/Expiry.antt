-- ===== src/Api/Objects/Expiry.antt =====
-- The expiry in a signed query, which `Number` makes of a text, and the checks of
-- server/src/services/storage.service.ts, server/src/services/stream.service.ts and
-- server/src/lib/crypto.ts on such a number.
use ai_cctv_platform.Common.{
  ℕ, ◌≡◌, refl, Bool, true, false, not, String, ◌⧺◌, ◌==◌, eqb, ltb, if◌then◌else◌,
}
use ai_cctv_platform.Access.Directory.{Primitives}
use ai_cctv_platform.Access.Tokens.{
  SignedUrlParams, StreamParams, equal_hex, sign_storage_token, storage_payload,
  verify_evidence_url, verify_storage_token, sign_stream_token, stream_payload, verify_stream_token,
}
use ai_cctv_platform.Tenancy.Isolation.{key_belongs_to_org}

-- Any other number, a negative one, a fraction or an infinity, is its text and whether it is before
-- a second.
pub data QueryNumber : Type 0 where
  not_a_number : QueryNumber
  natural : ℕ → QueryNumber
  other_number : String → (ℕ → Bool) → QueryNumber

-- `!exp`.
unfoldable pub is_falsy : QueryNumber → Bool
is_falsy not_a_number = true
is_falsy (natural n) = eqb n 0
is_falsy (other_number text is_before) = false

-- `exp < now`.
unfoldable pub is_past : ℕ → QueryNumber → Bool
is_past now not_a_number = false
is_past now (natural n) = ltb n now
is_past now (other_number text is_before) = is_before now

module _ (prims : Primitives) (secret : String) where
  -- The number in a template literal.
  unfoldable pub number_text : QueryNumber → String
  number_text not_a_number = "NaN"
  number_text (natural n) = prims.decimal n
  number_text (other_number text is_before) = text

  unfoldable pub storage_digest : String → String → QueryNumber → String
  unfolding number_text
  storage_digest org key exp = prims.hmac secret (org ⧺ ":" ⧺ key ⧺ ":" ⧺ number_text exp)

  unfoldable pub stream_digest : (org cam site_id sid : String) → QueryNumber → String
  unfolding number_text
  stream_digest org cam site_id sid exp =
      prims.hmac secret (org ⧺ ":" ⧺ cam ⧺ ":" ⧺ site_id ⧺ ":" ⧺ sid ⧺ ":" ⧺ number_text exp)

  -- `verifyEvidenceUrl`.
  unfoldable pub verify_url : ℕ → (org key : String) → QueryNumber → String → Bool
  unfolding is_past storage_digest equal_hex
  verify_url now org key exp sig =
      if not (key_belongs_to_org key org)
      then false
      else if is_past now exp
      then false
      else equal_hex prims secret (storage_digest org key exp) sig

  -- `verifyStreamToken`.
  unfoldable pub verify_stream : ℕ → (org cam site_id sid : String) → QueryNumber → String → Bool
  unfolding is_past stream_digest
  verify_stream now org cam site_id sid exp sig =
      if is_past now exp then false else stream_digest org cam site_id sid exp == sig

  -- On natural numbers these are the checks of signed parameters.
  pub verify_url_natural :
      (now : ℕ) (p : SignedUrlParams) (sig : String)
      → verify_url now p.organization_id p.storage_key (natural p.expires_at) sig
        ≡ verify_evidence_url prims secret now p sig
  unfolding verify_url verify_evidence_url verify_storage_token sign_storage_token storage_payload
  verify_url_natural now p sig = refl

  pub verify_stream_natural :
      (now : ℕ) (p : StreamParams) (sig : String)
      → verify_stream now p.organization_id p.camera_id p.site_id p.session_id
          (natural p.expires_at)
          sig
        ≡ verify_stream_token prims secret now p sig
  unfolding verify_stream verify_stream_token sign_stream_token stream_payload
  verify_stream_natural now p sig = refl
