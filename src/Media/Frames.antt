-- ===== src/Media/Frames.antt =====
-- server/src/media/frame-source.ts: `FrameSource`, one FFmpeg child and the JPEG frames cut from its
-- output. Bytes are numbers; the child's events and the callers' calls are inputs.
pub mod Markers
pub mod Chunks
pub mod Growth
mod Examples
use ai_cctv_platform.Common.{
  ℕ, zero, suc, ◌+◌, ◌*◌, Bool, true, false, ◌&&◌, ◌||◌, not, String, Option, some, none, List, [],
  ◌∷◌, ◌++◌, eqb, ltb, length, map, is_some, if◌then◌else◌, ◌==◌,
}

abbrev pub Bytes : Type 0
Bytes = List ℕ

-- `buffer.indexOf([0xff, marker])` with the two `subarray`s around the marker: the bytes before it
-- and the bytes after it.
abbrev pub with_first : ℕ → Option (Bytes × Bytes) → Option (Bytes × Bytes)
with_first x none = none
with_first x (some (before, after)) = some (x ∷ before, after)

unfoldable pub break_at : ℕ → Bytes → Option (Bytes × Bytes)
break_at marker [] = none
break_at marker (x ∷ []) = none
break_at marker (x ∷ y ∷ xs) =
    if eqb x 255 && eqb y marker then some ([], xs) else with_first x (break_at marker (y ∷ xs))

abbrev pub soi : ℕ
soi = 216

abbrev pub eoi : ℕ
eoi = 217

-- 8 * 1024 * 1024.
abbrev pub max_junk : ℕ
max_junk = 8_388_608

unfoldable pub frame_of : Bytes → Bytes
frame_of body = 255 ∷ soi ∷ body ++ 255 ∷ eoi ∷ []

-- One round of `onData`'s loop, from the search for a start to the return or the next round, `more`.
-- `limit` is the guard's.
abbrev pub on_end :
    (Bytes → List Bytes × Bytes) → Bytes → Option (Bytes × Bytes) → List Bytes × Bytes
on_end more rest none = ([], 255 ∷ soi ∷ rest)
on_end more rest (some (body, after)) = (frame_of body ∷ (more after).0, (more after).1)

abbrev pub on_start :
    ℕ → (Bytes → List Bytes × Bytes) → Bytes → Option (Bytes × Bytes) → List Bytes × Bytes
on_start limit more buffer none = ([], if ltb limit (length buffer) then [] else buffer)
on_start limit more buffer (some (junk, rest)) = on_end more rest (break_at eoi rest)

-- The loop: the frames cut, and the buffer left.
unfoldable pub extract : (limit fuel : ℕ) → Bytes → List Bytes × Bytes
unfolding break_at frame_of
extract limit zero buffer = ([], buffer)
extract limit (suc fuel) buffer = on_start limit (extract limit fuel) buffer (break_at soi buffer)

-- `onData`: the loop on the old buffer and the chunk, with rounds enough for every byte.
unfoldable pub cut_frames : ℕ → Bytes → Bytes → List Bytes × Bytes
unfolding extract
cut_frames limit buffer chunk = extract limit (suc (length (buffer ++ chunk))) (buffer ++ chunk)

pub data Emitted : Type 0 where
  frame : Bytes → Emitted
  exit : String → Emitted
  failed : String → Emitted

pub record FrameSource : Type 0 where
  pub video_file : Option String
  pub target : Option String
  pub child : Bool
  pub buffer : Bytes
  pub stopped : Bool
  pub stderr_tail : String
  pub emitted : List Emitted  -- the first one first

unfoldable pub emit : List Emitted → FrameSource → FrameSource
emit es s = record s { emitted = s.emitted ++ es }

unfoldable pub start_source : FrameSource → FrameSource
unfolding emit
start_source s =
    if s.child || s.stopped
    then s
    else if is_some s.video_file || is_some s.target
    then record s { child = true }
    else emit (failed "FrameSource has no source configured" ∷ []) s

unfoldable pub on_data : Bytes → FrameSource → FrameSource
unfolding cut_frames emit
on_data chunk s =
    let (frames, left) = cut_frames max_junk s.buffer chunk in
    emit (map frame frames) (record s { buffer = left })

unfoldable pub on_child_exit : FrameSource → FrameSource
unfolding emit
on_child_exit s =
    let gone = record s { child = false; buffer = [] } in
    if s.stopped
    then gone
    else emit (exit (if s.stderr_tail == "" then "ffmpeg exited" else s.stderr_tail) ∷ []) gone

unfoldable pub stop_source : FrameSource → FrameSource
stop_source s = record s { stopped = true; child = false }

unfoldable pub is_running : FrameSource → Bool
is_running s = s.child && not s.stopped
