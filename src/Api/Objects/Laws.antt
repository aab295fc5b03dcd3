-- ===== src/Api/Objects/Laws.antt =====
-- Who is sent which object (server/src/routes/storage.routes.ts).
use ai_cctv_platform.Common.{
  sym, ap, ◌∙◌, ℕ, ◌≤◌, ◌<◌, ◌≡◌, true, false, String, Option, some, none, arith, ◌==◌,
}
use ai_cctv_platform.Access.Directory.{Directory, Primitives}
use ai_cctv_platform.Access.Sessions.{get_membership}
use ai_cctv_platform.Access.Tokens.Laws.{equal_hex-eq, verify_evidence_url-sign}
use ai_cctv_platform.Tenancy.Isolation.{key_belongs_to_org}
use ai_cctv_platform.Api.Events.{sign_evidence_url}
use ai_cctv_platform.Api.Objects.Expiry.{
  natural, is_falsy, is_past, storage_digest, verify_url, verify_url_natural,
}
use ai_cctv_platform.Api.Objects.{
  ObjectQuery, sent, is_active_member, query_of, serve_object, found_object,
}

found_object-sent :
    (o : Option String) (content : String) → found_object o ≡ sent content → o ≡ some content
found_object-sent none content h = ground (arith, h)
found_object-sent (some c) content h = ground (arith, h)

module _ (prims : Primitives) (secret : String) (now : ℕ) where
  unexpired : (n : ℕ) → is_past now (natural n) ≡ false → now ≤ n
  unfolding is_past
  unexpired n h = ground (arith, h)

  -- What a request is sent is what the store holds under its key, the caller is an active member
  -- of the organization it names, the key stands under that organization's prefix, the expiry has
  -- not passed, and the signature has the bytes of the digest of these three. An expiry that is a
  -- natural number is not before the current second.
  pub serve_object_sound :
      (dir : Directory) (read : String → Option String) (user_id : String) (q : ObjectQuery)
      (content : String)
      → serve_object prims secret now dir read user_id q ≡ sent content
      → (read q.key ≡ some content)
        × (is_active_member (get_membership user_id q.org dir) ≡ true)
        × (key_belongs_to_org q.key q.org ≡ true)
        × (is_past now q.exp ≡ false)
        × ((n : ℕ) → q.exp ≡ natural n → now ≤ n)
        × (prims.from_hex (storage_digest prims secret q.org q.key q.exp) ≡ prims.from_hex q.sig)
  unfolding serve_object verify_url
  serve_object_sound dir read user_id q content h =
      let served : (read q.key ≡ some content)
          × (is_active_member (get_membership user_id q.org dir) ≡ true)
          × (key_belongs_to_org q.key q.org ≡ true)
          × (is_past now q.exp ≡ false)
          × (prims.from_hex (storage_digest prims secret q.org q.key q.exp)
              ≡ prims.from_hex q.sig) =
        ground (
          arith,
          h,
          equal_hex-eq prims secret (storage_digest prims secret q.org q.key q.exp) q.sig,
          found_object-sent (read q.key) content,
        ) in
      (
        served.0,
        served.1,
        served.2,
        served.3,
        (λ n e. unexpired n (sym (ap (is_past now) e) ∙ served.3)),
        served.4,
      )

  -- A URL that is signed for an object under an organization's prefix is honoured until it
  -- expires, for every active member of the organization: they are sent what the store holds, if
  -- the organization, the key and the signature are no empty texts and the second is not the first
  -- of the epoch.
  pub serve_object-sign :
      (date_now ttl : ℕ) (dir : Directory) (read : String → Option String)
      (user_id org key content : String)
      → let url = sign_evidence_url prims secret date_now ttl org key in
        (key == "") ≡ false
        → (org == "") ≡ false
        → (url.sig == "") ≡ false
        → 0 < now
        → now ≤ url.params.expires_at
        → key_belongs_to_org key org ≡ true
        → is_active_member (get_membership user_id org dir) ≡ true
        → read key ≡ some content
        → serve_object prims secret now dir read user_id (query_of url) ≡ sent content
  unfolding serve_object sign_evidence_url is_falsy
  serve_object-sign date_now ttl dir read user_id org key content k o s pos fits belongs member
        found =
      let p = (sign_evidence_url prims secret date_now ttl org key).params in
      let sig = (sign_evidence_url prims secret date_now ttl org key).sig in
      ground (
        arith,
        verify_url_natural prims secret now p sig
            ∙ verify_evidence_url-sign prims secret now p belongs fits,
      )
