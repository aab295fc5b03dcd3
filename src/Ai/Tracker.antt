-- ===== src/Ai/Tracker.antt =====
-- server/src/ai/tracker.ts: the tracks of one camera's session, matched by the overlap of boxes. An
-- instant that lies before a track's is no time after it.
pub mod Laws
mod Examples
use ai_cctv_platform.Common.{
  ℕ, ◌+◌, ◌-◌, Bool, true, false, ◌&&◌, ◌||◌, not, String, ◌==◌, ◌⧺◌, Option, none, some, List, [],
  ◌∷◌, ◌++◌, ltb, leb, includes, filter, map_get, map_set, if◌then◌else◌, coalesce,
}
use ai_cctv_platform.Ai.Zone.{NumberOps, BBox}
use ai_cctv_platform.Tenancy.World.{Runtime}

pub record Track (N : Type 0) : Type 0 where
  pub id : String
  pub label : String
  pub bbox : BBox N
  pub first_seen : ℕ
  pub last_seen : ℕ

pub record CameraTrackState (N : Type 0) : Type 0 where
  pub tracks : List (String × Track N)
  pub seq : ℕ

-- What the tracker is asked about, and what it answers.
pub record Detection (N : Type 0) : Type 0 where
  pub label : String
  pub bbox : BBox N

pub record TrackedDetection (N : Type 0) : Type 0 where
  pub track_id : String
  pub label : String
  pub bbox : BBox N
  pub dwell_ms : ℕ
  pub is_new : Bool

-- The `state` map of the tracker, and how many random ids were drawn.
pub record SessionTracker (N : Type 0) : Type 0 where
  pub state : List (String × CameraTrackState N)
  pub drawn : ℕ

abbrev pub track_ttl_ms : ℕ
track_ttl_ms = 10_000

unfoldable pub tracker_key : String → String → String
tracker_key org cam = org ⧺ ":" ⧺ cam

module _ {N : Type 0} (ops : NumberOps N) where
  unfoldable pub iou : BBox N → BBox N → N
  iou a b =
      let ax2 = ops.add a.x a.w in
      let ay2 = ops.add a.y a.h in
      let bx2 = ops.add b.x b.w in
      let by2 = ops.add b.y b.h in
      let ix = ops.max_n ops.zero_n (ops.sub (ops.min_n ax2 bx2) (ops.max_n a.x b.x)) in
      let iy = ops.max_n ops.zero_n (ops.sub (ops.min_n ay2 by2) (ops.max_n a.y b.y)) in
      let inter = ops.mul ix iy in
      let union = ops.sub (ops.add (ops.mul a.w a.h) (ops.mul b.w b.h)) inter in
      if ops.le union ops.zero_n then ops.zero_n else ops.div inter union

  -- One step of the search: a track of the same label that no detection of the frame has claimed,
  -- and that overlaps at least as much as the best so far.
  unfoldable pub better :
      Detection N → List String → String × Track N → Option String × N → Option String × N
  unfolding iou
  better det claimed (id, t) (best_id, best_iou) =
      if not (t.label == det.label) || includes claimed id
      then (best_id, best_iou)
      else if ops.le best_iou (iou t.bbox det.bbox)
      then (some id, iou t.bbox det.bbox)
      else (best_id, best_iou)

  unfoldable pub best_match :
      Detection N → List String → List (String × Track N) → Option String × N → Option String × N
  unfolding better
  best_match det claimed [] best = best
  best_match det claimed (entry ∷ entries) best =
      best_match det claimed entries (better det claimed entry best)

  -- The tracks not seen for longer than their time to live are dropped.
  unfoldable pub expire : ℕ → List (String × Track N) → List (String × Track N)
  expire now tracks = filter (λ e. not (ltb track_ttl_ms (now - e.1.last_seen))) tracks

  -- What the loop over a frame's detections changes.
  pub record Frame : Type 0 where
    pub tracks : List (String × Track N)
    pub seq : ℕ
    pub drawn : ℕ
    pub claimed : List String
    pub out : List (TrackedDetection N)

  module _ (rt : Runtime) (now : ℕ) where
    unfoldable pub continue_track : Detection N → String → Track N → Frame → Frame
    unfolding map_set
    continue_track det id t s = record s {
      tracks = map_set s.tracks id (record t { bbox = det.bbox; last_seen = now });
      claimed = id ∷ s.claimed;
      out =
          s.out
          ++ record {
            track_id = id;
            label = det.label;
            bbox = det.bbox;
            dwell_ms = now - t.first_seen;
            is_new = false;
          }
            ∷ [];
    }

    unfoldable pub new_track : Detection N → Frame → Frame
    unfolding map_set
    new_track det s =
        let seq = s.seq + 1 in
        let id = rt.lower det.label ⧺ "-track-" ⧺ rt.decimal seq ⧺ "-" ⧺ rt.short_uuid s.drawn in
        record {
          tracks = map_set s.tracks id (record {
            id = id;
            label = det.label;
            bbox = det.bbox;
            first_seen = now;
            last_seen = now;
          });
          seq = seq;
          drawn = s.drawn + 1;
          claimed = id ∷ s.claimed;
          out =
              s.out
              ++ record {
                track_id = id;
                label = det.label;
                bbox = det.bbox;
                dwell_ms = 0;
                is_new = true;
              }
                ∷ [];
        }

    -- A track under the best id is always there; the code's `!` says so.
    abbrev pub on_track : Detection N → String → Option (Track N) → Frame → Frame
    on_track det id none s = s
    on_track det id (some t) s = continue_track det id t s

    abbrev pub on_best : Detection N → Option String → Frame → Frame
    on_best det none s = new_track det s
    on_best det (some id) s = on_track det id (map_get s.tracks id) s

    unfoldable pub track : Detection N → Frame → Frame
    unfolding best_match continue_track new_track map_get
    track det s = on_best det ((best_match det s.claimed s.tracks (none, ops.three_tenths)).0) s

    unfoldable pub track_all : List (Detection N) → Frame → Frame
    unfolding track
    track_all [] s = s
    track_all (det ∷ dets) s = track_all dets (track det s)

    -- The loop starts with the tracks that have not expired.
    unfoldable pub start_frame : CameraTrackState N → ℕ → Frame
    unfolding expire
    start_frame cs drawn = record {
      tracks = expire now cs.tracks;
      seq = cs.seq;
      drawn = drawn;
      claimed = [];
      out = [];
    }

    abbrev pub no_tracks : CameraTrackState N
    no_tracks = record { tracks = []; seq = 0 }

    unfoldable pub update_tracks :
        String
        → String
        → List (Detection N)
        → SessionTracker N
        → List (TrackedDetection N) × SessionTracker N
    unfolding tracker_key start_frame track_all map_get map_set
    update_tracks org cam dets tracker =
        let key = tracker_key org cam in
        let cs = coalesce (map_get tracker.state key) no_tracks in
        let s = track_all dets (start_frame cs tracker.drawn) in
        (
          s.out,
          record {
            state = map_set tracker.state key (record { tracks = s.tracks; seq = s.seq });
            drawn = s.drawn;
          },
        )

    -- A set in the order of insertion.
    abbrev pub add_label : String → List String → List String
    add_label label labels = if includes labels label then labels else labels ++ label ∷ []

    unfoldable pub labels_of : List (String × Track N) → List String → List String
    labels_of [] labels = labels
    labels_of ((id, t) ∷ entries) labels =
        labels_of entries
          (if leb (now - t.last_seen) track_ttl_ms then add_label t.label labels else labels)

    abbrev pub labels_in : Option (CameraTrackState N) → List String
    labels_in none = []
    labels_in (some cs) = labels_of cs.tracks []

    unfoldable pub present_labels : String → String → SessionTracker N → List String
    unfolding tracker_key map_get labels_of
    present_labels org cam tracker = labels_in (map_get tracker.state (tracker_key org cam))
