-- ===== src/Media/Frames/Examples.antt =====
-- Tests of the frame source, and its theorems at concrete inputs.
use ai_cctv_platform.Common.{◌≡◌, refl, List, [], ◌∷◌, false, some, none, arith}
use ai_cctv_platform.Media.Frames.{
  Bytes, extract, FrameSource, frame, exit, break_at, soi, start_source, on_data, on_child_exit,
  stop_source, is_running,
}
use ai_cctv_platform.Media.Frames.Chunks.{Cuts, extract-Cuts, feed, feed_chunking}
use ai_cctv_platform.Media.Frames.Growth.{feed_unbounded}

-- A frame whose markers are split between chunks, after a byte of junk.
abbrev split_up : List Bytes
split_up = (1 ∷ 255 ∷ []) ∷ (216 ∷ 7 ∷ 255 ∷ []) ∷ (217 ∷ 9 ∷ []) ∷ []

abbrev at_once : List Bytes
at_once = (1 ∷ 255 ∷ 216 ∷ 7 ∷ 255 ∷ 217 ∷ 9 ∷ []) ∷ []

one_frame : feed 100 [] split_up ≡ ((255 ∷ 216 ∷ 7 ∷ 255 ∷ 217 ∷ []) ∷ [], 9 ∷ [])
unfolding feed
one_frame = refl

feed_chunking_example :
    ((feed 100 [] split_up).0 ≡ (feed 100 [] at_once).0)
    × ((feed 100 [] split_up).1 ≡ (feed 100 [] at_once).1)
unfolding feed
feed_chunking_example = feed_chunking 100 split_up at_once refl (omega arith) (omega arith)

feed_unbounded_example :
    feed 3 (255 ∷ soi ∷ []) ((1 ∷ 2 ∷ []) ∷ (3 ∷ 4 ∷ []) ∷ [])
    ≡ ([], 255 ∷ soi ∷ 1 ∷ 2 ∷ 3 ∷ 4 ∷ [])
unfolding break_at
feed_unbounded_example = feed_unbounded 3 [] ((1 ∷ 2 ∷ []) ∷ (3 ∷ 4 ∷ []) ∷ []) refl

abbrev idle : FrameSource
idle = record {
  video_file = none;
  target = some "cam";
  child = false;
  buffer = [];
  stopped = false;
  stderr_tail = "";
  emitted = [];
}

lost :
    (on_child_exit (on_data (255 ∷ 216 ∷ 255 ∷ 217 ∷ []) (start_source idle))).emitted
    ≡ frame (255 ∷ 216 ∷ 255 ∷ 217 ∷ []) ∷ exit "ffmpeg exited" ∷ []
unfolding on_child_exit on_data start_source
lost = refl

-- A stopped source does not start again.
ended : is_running (start_source (stop_source (start_source idle))) ≡ false
unfolding is_running start_source stop_source
ended = refl

abbrev bytes : Bytes
bytes = 1 ∷ 255 ∷ 216 ∷ 7 ∷ 255 ∷ 217 ∷ 9 ∷ []

extract-Cuts_example : Cuts bytes (extract 100 20 bytes).0 (extract 100 20 bytes).1
extract-Cuts_example = extract-Cuts 100 20 bytes (omega arith) (omega arith)
