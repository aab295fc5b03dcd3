-- ===== src/Api/Objects/Examples.antt =====
-- Tests of the signed endpoints, and their theorems at concrete inputs.
use ai_cctv_platform.Common.{false, ℕ, ◌≤◌, ◌≡◌, refl, true, String, Option, some, In, arith}
use ai_cctv_platform.Access.Directory.{MemberRow}
use ai_cctv_platform.Access.Guards.{is_active}
use ai_cctv_platform.Access.Guards.Examples.{dir, context}
use ai_cctv_platform.Access.Sessions.{get_membership}
use ai_cctv_platform.Access.Tokens.Examples.{prims}
use ai_cctv_platform.Tenancy.Isolation.{key_belongs_to_org}
use ai_cctv_platform.Tenancy.World.{World, Camera}
use ai_cctv_platform.Tenancy.Rls.{ok, org_visible, with_tenant}
use ai_cctv_platform.Tenancy.Fixtures.{world_with}
use ai_cctv_platform.Media.Status.{CameraStatus}
use ai_cctv_platform.Api.Events.{sign_evidence_url}
use ai_cctv_platform.Api.Objects.{
  ObjectQuery, sent, refused, is_active_member, query_of, serve_object,
}
use ai_cctv_platform.Api.Objects.Expiry.{
  natural, is_past, storage_digest, stream_digest, verify_url, verify_stream,
}
use ai_cctv_platform.Api.Objects.Laws.{serve_object_sound, serve_object-sign}
use ai_cctv_platform.Api.Objects.Playback.{PlaybackQuery, playback_info, playback}
use ai_cctv_platform.Api.Objects.Viewers.{playback_sound}

abbrev snapshot_key : String
snapshot_key = "organizations/a/sites/s/cameras/c/events/e/f.jpg"

abbrev signed_url : ObjectQuery
signed_url = record { key = snapshot_key; org = "a"; exp = natural 900; sig = "7a" }

-- A stranger to the organization cannot use the URL.
stranger :
    serve_object prims "k" 800 dir (λ key. some "jpeg") "u2" signed_url
    ≡ refused 404 "NOT_FOUND" "Not found"
unfolding serve_object verify_url key_belongs_to_org get_membership
stranger = refl

served : serve_object prims "k" 800 dir (λ key. some "jpeg") "u1" signed_url ≡ sent "jpeg"
unfolding serve_object verify_url key_belongs_to_org get_membership
served = refl

serve_object_sound_example :
    (◌≡◌ {A = Option String} (some "jpeg") (some "jpeg"))
    × (is_active_member (get_membership "u1" "a" dir) ≡ true)
    × (key_belongs_to_org snapshot_key "a" ≡ true)
    × (is_past 800 (natural 900) ≡ false)
    × ((n : ℕ) → natural 900 ≡ natural n → 800 ≤ n)
    × (prims.from_hex (storage_digest prims "k" "a" snapshot_key (natural 900))
        ≡ prims.from_hex "7a")
serve_object_sound_example =
    serve_object_sound prims "k" 800 dir (λ key. some "jpeg") "u1" signed_url "jpeg" served

serve_object-sign_example :
    serve_object prims "k" 850 dir
      (λ key. some "jpeg")
      "u1"
      (query_of (sign_evidence_url prims "k" 800999 100 "a" snapshot_key))
    ≡ sent "jpeg"
unfolding sign_evidence_url key_belongs_to_org is_active_member get_membership
serve_object-sign_example =
    serve_object-sign prims "k" 850 800999 100 dir (λ key. some "jpeg") "u1" "a" snapshot_key "jpeg"
      refl refl refl (omega arith) (omega arith) refl refl refl

abbrev world : World
world = world_with CameraStatus.online

abbrev query : PlaybackQuery
query = record { cam = "c1"; org = "a"; sid = "x"; exp = natural 900; sig = "7a" }

playing : playback prims "k" 800 query dir context world ≡ ok (sent (playback_info query)) world
unfolding playback verify_stream get_membership org_visible with_tenant
playing = refl

playback_sound_example :
    ((row : MemberRow) × In row dir.members
      × (row.user_id ≡ "u1")
      × (row.organization_id ≡ "a")
      × (is_active row.status ≡ true))
    × ((c : Camera) × In c world.cameras
        × (c.id ≡ "c1")
        × (c.organization_id ≡ "a")
        × (is_past 800 (natural 900) ≡ false)
        × (stream_digest prims "k" "a" "c1" c.site_id "x" (natural 900) ≡ "7a"))
    × (world ≡ world)
playback_sound_example =
    playback_sound prims "k" 800 query dir context world world (playback_info query) playing
