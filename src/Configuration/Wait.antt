-- ===== src/Configuration/Wait.antt =====
-- internal/config/schedule.go: the wait that NextWindowStart returns ends inside the window.
use cpa_antigravity_quota_gu.Prelude.{
  ℕ, ◌+◌, ◌*◌, ◌≤◌, ◌<◌, ◌≡◌, refl, true, false, some, arith, trim_space, is_empty, ◌∙◌,
}
use cpa_antigravity_quota_gu.Guard.Types.{Time, minute}
use cpa_antigravity_quota_gu.Configuration.Clock.{minute_of_day}
use cpa_antigravity_quota_gu.Configuration.Schedule.{
  ScheduleConfig, parse_hhmm, in_window, is_in_schedule_window, next_window_start,
}

-- The wait that ends inside the window, when both times are there.
pub record Opens (now : Time) (cfg : ScheduleConfig) : Type 0 where
  pub starts : 0 < next_window_start now cfg
  pub within_a_day : next_window_start now cfg ≤ 1440 * minute
  pub opens : is_in_schedule_window (now + next_window_start now cfg) cfg ≡ true

-- A configuration whose window is on, with two times.
pub record Timed (cfg : ScheduleConfig) (start end : ℕ) : Type 0 where
  pub enabled : cfg.window_enabled ≡ true
  pub start_named : is_empty (trim_space cfg.window_start) ≡ false
  pub end_named : is_empty (trim_space cfg.window_end) ≡ false
  pub starts_at : parse_hhmm (trim_space cfg.window_start) ≡ some start
  pub ends_at : parse_hhmm (trim_space cfg.window_end) ≡ some end

is_in_schedule_window-Timed :
    (now : Time) (cfg : ScheduleConfig) (start end : ℕ)
    → Timed cfg start end
    → is_in_schedule_window now cfg ≡ in_window (minute_of_day now) (some start) (some end)
unfolding is_in_schedule_window
is_in_schedule_window-Timed now cfg start end h =
    rw h.enabled (rw h.start_named (rw h.end_named (rw h.starts_at (rw h.ends_at refl))))

-- A window from 24:00 to 00:00 never opens.
pub never_opens :
    (now : Time) (cfg : ScheduleConfig) → Timed cfg 1440 0 → is_in_schedule_window now cfg ≡ false
unfolding in_window minute_of_day
never_opens now cfg h = is_in_schedule_window-Timed now cfg 1440 0 h ∙ ground arith
