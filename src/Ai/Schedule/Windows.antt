-- ===== src/Ai/Schedule/Windows.antt =====
-- A window's test is membership in a stretch of the day's circle.
use ai_cctv_platform.Common.{ℕ, ◌+◌, ◌-◌, ◌%◌, ◌<◌, ◌≤◌, ◌≡◌, arith, leb, ltb, if◌then◌else◌}
use ai_cctv_platform.Ai.Schedule.{ScheduleRow, within_window}

-- How long a window is: past midnight where it closes before it opens.
abbrev pub window_length : ScheduleRow → ℕ
window_length r =
    if leb r.open_minute r.close_minute
    then r.close_minute - r.open_minute
    else r.close_minute + 1440 - r.open_minute

-- Where a window opens and closes at minutes from 0 to 1440, a minute of the day, below 1440, is in
-- it exactly when fewer minutes than its length have passed since its opening, counted around the
-- day's 1440 minutes; the length is from opening to closing, past midnight where the closing is
-- before the opening.
pub within_window-eq-circular :
    (r : ScheduleRow) (mins : ℕ)
    → mins < 1440
    → r.open_minute ≤ 1440
    → r.close_minute ≤ 1440
    → within_window mins r ≡ ltb ((mins + 1440 - r.open_minute) % 1440) (window_length r)
unfolding within_window
within_window-eq-circular r mins hm ho hc = ground arith
