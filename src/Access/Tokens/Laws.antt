-- ===== src/Access/Tokens/Laws.antt =====
-- What a signed session id and a signed token promise.
use Prim.Native.Char.{Char, code}
use Prim.Native.String.{[], ◌∷◌}
use mathlib.Core.Option.{some-injective, none-ne-some}
use text.Mathlib.TextLemmas.{append_assoc, append_cancel_left, nil-append, cons-append}
use ai_cctv_platform.Common.{
  ℕ, ◌≤◌, ◌≡◌, refl, sym, ap, ◌∙◌, true, String, Option, some, none, List, ◌⧺◌, Lacks,
  joined_prefix_unique, singleton-append, Bool-cases, inl, inr, arith, eq_iff, if◌then◌else◌,
}
use ai_cctv_platform.Access.Directory.{Primitives}
use ai_cctv_platform.Tenancy.Isolation.{key_belongs_to_org}
use ai_cctv_platform.Access.Tokens.{
  timing_safe_equal, split_last, SignedUrlParams, StreamParams, equal_hex, sign_session_id,
  check_signature, verify_session_id, storage_payload, sign_storage_token, verify_storage_token,
  verify_evidence_url, stream_payload, sign_stream_token, verify_stream_token,
}

pub timing_safe_equal-eq : (xs ys : List ℕ) → timing_safe_equal xs ys ≡ true → xs ≡ ys
unfolding timing_safe_equal
timing_safe_equal-eq List.[] List.[] h = refl
timing_safe_equal-eq List.[] (List.◌∷◌ y ys) h = ground (arith, h)
timing_safe_equal-eq (List.◌∷◌ x xs) List.[] h = ground (arith, h)
timing_safe_equal-eq (List.◌∷◌ x xs) (List.◌∷◌ y ys) h = ground (arith, timing_safe_equal-eq xs ys)

pub timing_safe_equal_refl : (xs : List ℕ) → timing_safe_equal xs xs ≡ true
unfolding timing_safe_equal
timing_safe_equal_refl List.[] = refl
timing_safe_equal_refl (List.◌∷◌ x xs) = ground (arith, timing_safe_equal_refl xs)

split_last-none : (n : ℕ) (t : String) → Lacks n t → split_last n t ≡ none
unfolding split_last
split_last-none n [] h = refl
split_last-none n (c ∷ t) (h, k) = rw (split_last-none n t k) (ground (arith, h))

-- The last separator is the one before a text without it.
split_last_joined :
    (n : ℕ) (c : Char) (s t : String)
    → code c ≡ n
    → Lacks n t
    → split_last n (s ⧺ (c ∷ t)) ≡ some (s, t)
unfolding split_last
split_last_joined n c [] t e h =
    ap (split_last n) (nil-append (c ∷ t)) ∙ rw (split_last-none n t h) (ground (arith, e))
split_last_joined n c (d ∷ s) t e h =
    ap (split_last n) (cons-append d s (c ∷ t))
    ∙ rw (split_last, split_last_joined n c s t e h) refl

split_sep :
    (c : Char) (s t : String)
    → Lacks (code c) t
    → split_last (code c) (s ⧺ (c ∷ []) ⧺ t) ≡ some (s, t)
split_sep c s t h =
    ap (λ u. split_last (code c) (s ⧺ u)) (singleton-append c t)
    ∙ split_last_joined (code c) c s t refl h

-- What stands before the last colon, and after it.
split_payload :
    (org key digits : String)
    → Lacks b':' digits
    → split_last b':' (org ⧺ ":" ⧺ key ⧺ ":" ⧺ digits) ≡ some (org ⧺ ":" ⧺ key, digits)
split_payload org key digits h =
    ap (split_last b':') (
      sym (
        append_assoc org (":" ⧺ key) (":" ⧺ digits)
        ∙ ap (λ t. org ⧺ t) (append_assoc ":" key (":" ⧺ digits))))
    ∙ split_sep ":" (org ⧺ ":" ⧺ key) digits h

module _ (prims : Primitives) (key : String) where
  equal_hex_refl : (a : String) → equal_hex prims key a a ≡ true
  unfolding equal_hex
  equal_hex_refl a = ground (arith, timing_safe_equal_refl (prims.from_hex a))

  pub equal_hex-eq :
      (a b : String) → equal_hex prims key a b ≡ true → prims.from_hex a ≡ prims.from_hex b
  unfolding equal_hex
  equal_hex-eq a b h = ground (arith, timing_safe_equal-eq (prims.from_hex a) (prims.from_hex b))

  -- A signed session id is verified as that id, where the digest's text holds no dot.
  pub verify_session_id-sign :
      (session_id : String)
      → Lacks b'.' (prims.hmac key session_id)
      → verify_session_id prims key (sign_session_id prims key session_id) ≡ some session_id
  unfolding verify_session_id sign_session_id check_signature
  verify_session_id-sign session_id h =
      ap (check_signature prims key) (split_sep "." session_id (prims.hmac key session_id) h)
      ∙ ap (λ b. if b then some session_id else none) (equal_hex_refl (prims.hmac key session_id))

  check_signature_sound :
      (parts : Option (String × String)) (session_id : String)
      → check_signature prims key parts ≡ some session_id
      → (sig : String) × (parts ≡ some (session_id, sig))
        × (prims.from_hex sig ≡ prims.from_hex (prims.hmac key session_id))
  unfolding check_signature
  check_signature_sound none session_id h = absurd (none-ne-some session_id h)
  check_signature_sound (some (id, sig)) session_id h =
      elim (Bool-cases (equal_hex prims key sig (prims.hmac key id))) [
        | inl e ↦
            let same : id ≡ session_id =
              some-injective id session_id (sym (ap (λ b. if b then some id else none) e) ∙ h) in
            (
              sig,
              ap (λ i. some (i, sig)) same,
              equal_hex-eq sig (prims.hmac key id) e
                  ∙ ap (λ i. prims.from_hex (prims.hmac key i)) same,
            )
        | inr e ↦
            absurd (none-ne-some session_id (sym (ap (λ b. if b then some id else none) e) ∙ h))
      ]

  -- Only a text that ends in a signature with the bytes of the id's own digest is verified.
  pub verify_session_id_sound :
      (signed session_id : String)
      → verify_session_id prims key signed ≡ some session_id
      → (sig : String) × (split_last b'.' signed ≡ some (session_id, sig))
        × (prims.from_hex sig ≡ prims.from_hex (prims.hmac key session_id))
  unfolding verify_session_id
  verify_session_id_sound signed session_id h =
      check_signature_sound (split_last b'.' signed) session_id h

  -- A signed URL is accepted until it expires, for a key under its organization.
  pub verify_evidence_url-sign :
      (now : ℕ) (p : SignedUrlParams)
      → key_belongs_to_org p.storage_key p.organization_id ≡ true
      → now ≤ p.expires_at
      → verify_evidence_url prims key now p (sign_storage_token prims key p) ≡ true
  unfolding verify_evidence_url verify_storage_token
  verify_evidence_url-sign now p h k =
      ground (arith, equal_hex_refl (sign_storage_token prims key p))

  pub evidence_digest :
      (now : ℕ) (q : SignedUrlParams) (token : String)
      → verify_evidence_url prims key now q token ≡ true
      → (key_belongs_to_org q.storage_key q.organization_id ≡ true)
        × (now ≤ q.expires_at)
        × (prims.from_hex (sign_storage_token prims key q) ≡ prims.from_hex token)
  unfolding verify_evidence_url verify_storage_token
  evidence_digest now q token h =
      ground (arith, equal_hex-eq (sign_storage_token prims key q) token)

  -- A token signed for one object is accepted only with that object's organization, key and
  -- expiry, while it lasts: for organization ids without colons, decimal forms without colons,
  -- and an HMAC without a collision between the two payloads.
  pub verify_evidence_url_replay :
      (now : ℕ) (p q : SignedUrlParams)
      → Lacks b':' p.organization_id
      → Lacks b':' q.organization_id
      → Lacks b':' (prims.decimal p.expires_at)
      → Lacks b':' (prims.decimal q.expires_at)
      → (prims.from_hex (prims.hmac key (storage_payload prims key q))
            ≡ prims.from_hex (prims.hmac key (storage_payload prims key p))
          → storage_payload prims key q ≡ storage_payload prims key p)
      → verify_evidence_url prims key now q (sign_storage_token prims key p) ≡ true
      → (q.organization_id ≡ p.organization_id)
        × (q.storage_key ≡ p.storage_key)
        × (prims.decimal q.expires_at ≡ prims.decimal p.expires_at)
        × (now ≤ q.expires_at)
        × (key_belongs_to_org q.storage_key p.organization_id ≡ true)
  unfolding sign_storage_token storage_payload
  verify_evidence_url_replay now p q plain_p plain_q digits_p digits_q collides h =
      let d = evidence_digest now q (sign_storage_token prims key p) h in
      let same = collides d.2 in
      let org =
        joined_prefix_unique ":" q.organization_id p.organization_id _ _ plain_q plain_p same in
      let parts = some-injective _ _ (
        sym (split_payload q.organization_id q.storage_key (prims.decimal q.expires_at) digits_q)
        ∙ ap (split_last b':') same
        ∙ split_payload p.organization_id p.storage_key (prims.decimal p.expires_at) digits_p) in
      (
        org,
        append_cancel_left ":" _ _ (
            append_cancel_left q.organization_id _ _
              (ap (λ r. r.0) parts ∙ ap (λ o. o ⧺ ":" ⧺ p.storage_key) (sym org))),
        ap (λ r. r.1) parts,
        d.1,
        ap (key_belongs_to_org q.storage_key) (sym org) ∙ d.0,
      )

  -- A stream token for one camera is accepted only with that camera and its organization, while it
  -- lasts: for ids without colons and an HMAC without a collision between the two payloads.
  pub verify_stream_token_replay :
      (now : ℕ) (p q : StreamParams)
      → Lacks b':' p.organization_id
      → Lacks b':' q.organization_id
      → Lacks b':' p.camera_id
      → Lacks b':' q.camera_id
      → (sign_stream_token prims key q ≡ sign_stream_token prims key p
          → stream_payload prims key q ≡ stream_payload prims key p)
      → verify_stream_token prims key now q (sign_stream_token prims key p) ≡ true
      → (q.organization_id ≡ p.organization_id) × (q.camera_id ≡ p.camera_id) × (now ≤ q.expires_at)
  unfolding verify_stream_token stream_payload
  verify_stream_token_replay now p q plain_p plain_q camera_p camera_q collides h =
      let d : (now ≤ q.expires_at)
          × (sign_stream_token prims key q ≡ sign_stream_token prims key p) =
        ground (arith, h, eq_iff (sign_stream_token prims key q) (sign_stream_token prims key p)) in
      let same = collides d.1 in
      let org =
        joined_prefix_unique ":" q.organization_id p.organization_id _ _ plain_q plain_p same in
      let rest = append_cancel_left ":" _ _ (
        append_cancel_left q.organization_id _ _ (
          same
          ∙ ap
              (λ o.
                o
                ⧺ ":"
                ⧺ p.camera_id
                ⧺ ":"
                ⧺ p.site_id
                ⧺ ":"
                ⧺ p.session_id
                ⧺ ":"
                ⧺ prims.decimal p.expires_at)
              (sym org))) in
      (org, joined_prefix_unique ":" q.camera_id p.camera_id _ _ camera_q camera_p rest, d.0)
