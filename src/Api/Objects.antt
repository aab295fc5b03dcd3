-- ===== src/Api/Objects.antt =====
-- server/src/routes/storage.routes.ts: the endpoint of signed objects.
pub mod Expiry
pub mod Laws
pub mod Playback
pub mod Viewers
mod Examples
use ai_cctv_platform.Common.{
  ℕ, ◌+◌, Bool, true, false, ◌||◌, not, String, Option, some, none, ◌==◌, eqb, if◌then◌else◌,
}
use ai_cctv_platform.Access.Directory.{Directory, Primitives}
use ai_cctv_platform.Access.Guards.{is_active}
use ai_cctv_platform.Access.Sessions.{Membership, get_membership}
use ai_cctv_platform.Api.Events.{SignedUrl}
use ai_cctv_platform.Api.Objects.Expiry.{QueryNumber, natural, is_falsy, verify_url}
use ai_cctv_platform.Tenancy.Isolation.{key_belongs_to_org}

-- The query of a request: a missing text is empty, and a missing `exp` is 0.
pub record ObjectQuery : Type 0 where
  pub key : String
  pub org : String
  pub exp : QueryNumber
  pub sig : String

-- The query of a URL that was signed.
abbrev pub query_of : SignedUrl → ObjectQuery
query_of u = record {
  key = u.params.storage_key;
  org = u.params.organization_id;
  exp = natural u.params.expires_at;
  sig = u.sig;
}

-- What is sent, or a status with the error and message of the body.
pub data Reply {ℓ} (A : Type ℓ) : Type ℓ where
  sent : A → Reply A
  refused : ℕ → String → String → Reply A

unfoldable pub is_active_member : Option Membership → Bool
unfolding is_active
is_active_member none = false
is_active_member (some m) = is_active m.status

abbrev pub found_object : Option String → Reply String
found_object none = refused 404 "NOT_FOUND" "Object not found"
found_object (some content) = sent content

-- `secret` is the key of the HMAC, `now` the current second.
module _ (prims : Primitives) (secret : String) (now : ℕ) where
  -- `read` is the file system under the storage root: what it holds for a key.
  unfoldable pub serve_object :
      Directory → (read : String → Option String) → (user_id : String) → ObjectQuery → Reply String
  unfolding is_active_member is_falsy
  serve_object dir read user_id q =
      if q.key == "" || q.org == "" || is_falsy q.exp || q.sig == ""
      then refused 400 "BAD_REQUEST" "Missing signed URL params"
      else if not (verify_url prims secret now q.org q.key q.exp q.sig)
      then refused 403 "FORBIDDEN" "Invalid or expired URL"
      else if not (key_belongs_to_org q.key q.org)
      then refused 403 "FORBIDDEN" "Key/org mismatch"
      else if not (is_active_member (get_membership user_id q.org dir))
      then refused 404 "NOT_FOUND" "Not found"
      else found_object (read q.key)
