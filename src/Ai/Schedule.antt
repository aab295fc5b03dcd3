-- ===== src/Ai/Schedule.antt =====
-- server/src/ai/schedule.ts: whether a zone is closed at a time. The rows are zone_schedules.
pub mod Windows
mod Examples
use ai_cctv_platform.Common.{
  ℕ, Bool, true, false, ◌&&◌, ◌||◌, not, String, Option, some, none, List, [], ◌∷◌, ◌==◌, leb, ltb,
  eqb, filter, any, if◌then◌else◌,
}
use ai_cctv_platform.Tenancy.Rls.{TenantContext, select}

pub record ScheduleRow : Type 0 where
  pub organization_id : String
  pub zone_id : String
  pub weekday : Option ℕ
  pub open_minute : ℕ
  pub close_minute : ℕ

-- What `getUTCDay` and `getUTCHours() * 60 + getUTCMinutes()` say of an instant.
pub record Moment : Type 0 where
  pub weekday : ℕ
  pub minutes : ℕ

abbrev pub is_on : ℕ → Option ℕ → Bool
is_on day none = true
is_on day (some weekday) = eqb weekday day

-- The second branch is a window over midnight.
unfoldable pub within_window : ℕ → ScheduleRow → Bool
within_window mins r =
    if leb r.open_minute r.close_minute
    then leb r.open_minute mins && ltb mins r.close_minute
    else leb r.open_minute mins || ltb mins r.close_minute

unfoldable pub closed_by : Moment → List ScheduleRow → Bool
unfolding within_window
closed_by at_time [] = false
closed_by at_time rows =
    not (any (within_window at_time.minutes) (filter (λ r. is_on at_time.weekday r.weekday) rows))

unfoldable pub is_after_hours : TenantContext → String → Moment → List ScheduleRow → Bool
unfolding closed_by select
is_after_hours ctx zone_id at_time rows =
    closed_by at_time
      (select (λ (r : ScheduleRow). r.organization_id) ctx (λ r. r.zone_id == zone_id) rows)
