-- ===== src/Configuration/Schedule.antt =====
-- internal/config/schedule.go: the daily window in which the plugin probes.
use cpa_antigravity_quota_gu.Prelude.{
  ℕ, ◌+◌, ◌-◌, ◌*◌, Bool, true, false, ◌&&◌, ◌||◌, not, Option, none, some, ltb, leb, ◌==◌,
  if◌then◌else◌, ℤ, pos, Text, is_empty, trim_space,
}
use cpa_antigravity_quota_gu.Guard.Types.{Time, minute, second}
use cpa_antigravity_quota_gu.Configuration.Clock.{minute_of_day, second_of_minute, cut, atoi}

pub record ScheduleConfig : Type 0 where
  pub paused : Bool
  pub window_enabled : Bool
  pub window_start : Text
  pub window_end : Text

-- The checks of the two numbers of a time.
abbrev pub within : ℕ → Option ℤ → Option ℕ
within limit (some (pos n)) = if leb n limit then some n else none
within limit _ = none

abbrev pub time_of_numbers : Option ℕ → Option ℕ → Option ℕ
time_of_numbers (some h) (some m) = if h == 24 && not (m == 0) then none else some (h * 60 + m)
time_of_numbers _ _ = none

abbrev pub time_of_parts : Option (Text × Text) → Option ℕ
time_of_parts none = none
time_of_parts (some (h, m)) =
    time_of_numbers (within 24 (atoi (trim_space h))) (within 59 (atoi (trim_space m)))

-- `parseHHMM`; an error is `none`.
unfoldable pub parse_hhmm : Text → Option ℕ
unfolding cut atoi trim_space
parse_hhmm s = time_of_parts (cut 58 s)

-- The part of `IsInScheduleWindow` after the two times are read.
unfoldable pub in_window : ℕ → Option ℕ → Option ℕ → Bool
in_window now (some start) (some end) =
    if start == end
    then true
    else if start == 0 && end == 1440
    then true
    else if ltb start end
    then leb start now && ltb now end
    else leb start now || ltb now end
in_window now _ _ = true

-- `IsInScheduleWindow`
unfoldable pub is_in_schedule_window : Time → ScheduleConfig → Bool
unfolding parse_hhmm trim_space minute_of_day in_window
is_in_schedule_window now cfg =
    let start = trim_space cfg.window_start in
    let end = trim_space cfg.window_end in
    if not cfg.window_enabled
    then true
    else if is_empty start || is_empty end
    then true
    else in_window (minute_of_day now) (parse_hhmm start) (parse_hhmm end)

-- The minutes from one time of day to the next of another.
unfoldable pub minutes_until : ℕ → ℕ → ℕ
minutes_until start now = if ltb now start then start - now else (1440 - now) + start

-- The delay is at least one minute less 59 seconds.
abbrev pub delay_until : Option ℕ → Time → ℕ
delay_until none now = 0
delay_until (some start) now =
    minutes_until start (minute_of_day now) * minute - second_of_minute now * second

-- `NextWindowStart`
unfoldable pub next_window_start : Time → ScheduleConfig → ℕ
unfolding is_in_schedule_window minutes_until second_of_minute
next_window_start now cfg =
    let start = trim_space cfg.window_start in
    if not cfg.window_enabled
    then 0
    else if is_in_schedule_window now cfg
    then 0
    else if is_empty start
    then 0
    else delay_until (parse_hhmm start) now

-- `ValidateScheduleWindow`: whether it returns no error.
abbrev valid_time : Text → Bool
valid_time s = is_empty s || elim (parse_hhmm s) [ none ↦ false | some _ ↦ true ]

unfoldable pub validate_schedule_window : Text → Text → Bool
unfolding parse_hhmm
validate_schedule_window start end = valid_time start && valid_time end
