-- ===== src/Ai/Tracker/Examples.antt =====
-- Tests of the tracker, and its theorems at concrete frames. The numbers are naturals.
use ai_cctv_platform.Common.{
  ℕ, ◌≡◌, ◌≢◌, refl, false, String, some, [], ◌∷◌, map_get, arith, eq_iff,
}
use ai_cctv_platform.Ai.Zone.{BBox}
use ai_cctv_platform.Ai.Rules.Examples.{naturals}
use ai_cctv_platform.Ai.Tracker.{
  CameraTrackState, Detection, SessionTracker, tracker_key, update_tracks, present_labels,
}
use ai_cctv_platform.Ai.Tracker.Laws.{update_tracks-other}
use ai_cctv_platform.Tenancy.Fixtures.{runtime}

abbrev org_a : String
org_a = "a"

abbrev org_b : String
org_b = "b"

abbrev box : BBox ℕ
box = record { x = 1; y = 1; w = 4; h = 4 }

abbrev person : Detection ℕ
person = record { label = "PERSON"; bbox = box }

abbrev empty : SessionTracker ℕ
empty = record { state = []; drawn = 0 }

abbrev seen : SessionTracker ℕ
seen = (update_tracks naturals runtime 1000 org_a "c1" (person ∷ []) empty).1

dwelt :
    (update_tracks naturals runtime 4000 org_a "c1" (person ∷ []) seen).0
    ≡ record {
      track_id = "PERSON-track-7-u";
      label = "PERSON";
      bbox = box;
      dwell_ms = 3000;
      is_new = false;
    }
      ∷ []
unfolding update_tracks
dwelt = refl

present : present_labels naturals runtime 4000 org_a "c1" seen ≡ "PERSON" ∷ []
unfolding update_tracks present_labels
present = refl

apart : org_a ≢ org_b
apart = ground (arith, eq_iff org_a org_b)

update_tracks-other_example :
    map_get
      (update_tracks naturals runtime 4000 org_a "c1" (person ∷ []) seen).1.state
      (tracker_key org_b "c1")
    ≡ map_get seen.state (tracker_key org_b "c1")
update_tracks-other_example =
    update_tracks-other naturals runtime 4000 org_a org_b "c1" "c1" (person ∷ []) seen
      (omega arith, tt) (omega arith, tt) apart

abbrev one_track : CameraTrackState ℕ
one_track = record {
  tracks =
      (
        "PERSON-track-7-u",
        record {
          id = "PERSON-track-7-u";
          label = "PERSON";
          bbox = box;
          first_seen = 1000;
          last_seen = 1000;
        },
      )
      ∷ [];
  seq = 1;
}

tracked : map_get seen.state (tracker_key org_a "c1") ≡ some one_track
unfolding update_tracks map_get
tracked = refl
