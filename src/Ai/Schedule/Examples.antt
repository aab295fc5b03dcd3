-- ===== src/Ai/Schedule/Examples.antt =====
-- Tests of the schedules, and the theorem on windows at a concrete input.
use ai_cctv_platform.Common.{◌+◌, ◌-◌, ◌%◌, ◌≡◌, refl, true, false, some, [], ◌∷◌, arith, ltb}
use ai_cctv_platform.Ai.Schedule.{ScheduleRow, within_window, is_after_hours}
use ai_cctv_platform.Ai.Schedule.Windows.{window_length, within_window-eq-circular}
use ai_cctv_platform.Tenancy.Fixtures.{tenant_a}

abbrev overnight : ScheduleRow
overnight = record {
  organization_id = "a";
  zone_id = "z1";
  weekday = some 1;
  open_minute = 1320;
  close_minute = 360;
}

open_at_night :
    is_after_hours tenant_a "z1" (record { weekday = 1; minutes = 100 }) (overnight ∷ []) ≡ false
unfolding is_after_hours
open_at_night = refl

closed_on_sunday :
    is_after_hours tenant_a "z1" (record { weekday = 0; minutes = 100 }) (overnight ∷ []) ≡ true
unfolding is_after_hours
closed_on_sunday = refl

abbrev all_day : ScheduleRow
all_day = record overnight { open_minute = 0; close_minute = 1440 }

within_window-eq-circular_example :
    within_window 100 all_day ≡ ltb ((100 + 1440 - 0) % 1440) (window_length all_day)
within_window-eq-circular_example =
    within_window-eq-circular all_day 100 (omega arith) (omega arith) (omega arith)
