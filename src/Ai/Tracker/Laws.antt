-- ===== src/Ai/Tracker/Laws.antt =====
-- What the tracker keeps apart: organizations, and sessions with a gap between them.
use ai_cctv_platform.Common.{
  pick_else, ℕ, ◌-◌, ◌<◌, ◌≡◌, ◌≢◌, ◌∙◌, true, false, String, ◌==◌, eq_iff, Lacks,
  joined_prefix_unique, List, All, includes, map_get, map_get-set, arith,
}
use ai_cctv_platform.Ai.Zone.{NumberOps}
use ai_cctv_platform.Tenancy.World.{Runtime}
use ai_cctv_platform.Ai.Tracker.{
  Track, Detection, TrackedDetection, SessionTracker, track_ttl_ms, tracker_key, Frame,
  update_tracks,
}

key-apart :
    (org other cam cam' : String)
    → Lacks b':' org
    → Lacks b':' other
    → org ≢ other
    → (tracker_key org cam == tracker_key other cam') ≡ false
unfolding tracker_key
key-apart org other cam cam' plain plain_other apart = ground (
  arith,
  eq_iff (tracker_key org cam) (tracker_key other cam'),
  λ (e : tracker_key org cam ≡ tracker_key other cam').
      apart (joined_prefix_unique ":" org other cam cam' plain plain_other e),
)

module _ {N : Type 0} (ops : NumberOps N) (rt : Runtime) (now : ℕ) where
  -- A frame of one organization's camera leaves the tracks of every camera of another organization,
  -- whatever the cameras' ids, for organization ids without colons.
  pub update_tracks-other :
      (org other cam cam' : String) (dets : List (Detection N)) (tracker : SessionTracker N)
      → Lacks b':' org
      → Lacks b':' other
      → org ≢ other
      → map_get (update_tracks ops rt now org cam dets tracker).1.state (tracker_key other cam')
        ≡ map_get tracker.state (tracker_key other cam')
  unfolding update_tracks
  update_tracks-other org other cam cam' dets tracker plain plain_other apart =
      map_get-set tracker.state (tracker_key org cam) (tracker_key other cam') _
      ∙ pick_else _ _ _ (key-apart org other cam cam' plain plain_other apart)

  IsStale : String × Track N → Type 0
  IsStale e = track_ttl_ms < now - e.1.last_seen

  -- Every track of the frame is claimed, and every answer so far is a new track.
  record Fresh (s : Frame ops) : Type 0 where
    claimed : All (λ (e : String × Track N). includes s.claimed e.0 ≡ true) s.tracks
    new : All (λ (d : TrackedDetection N). (d.is_new ≡ true) × (d.dwell_ms ≡ 0)) s.out
