-- ===== src/Configuration/Window.antt =====
-- internal/config/schedule.go: the window as a cyclic interval of minutes, and the wait for it.
use cpa_antigravity_quota_gu.Prelude.{
  ℕ, ◌+◌, ◌-◌, ◌%◌, ◌≤◌, ◌<◌, ◌≡◌, refl, ℤ, pos, negsuc, [], ◌∷◌, Bool, true, ◌&&◌, ◌||◌, not,
  Option, none, some, ltb, ◌==◌, arith, Text, trim_space, is_empty, inl, inr, Option-cases,
}
use cpa_antigravity_quota_gu.Guard.Types.{Time}
use cpa_antigravity_quota_gu.Configuration.Clock.{cut, atoi, minute_of_day}
use cpa_antigravity_quota_gu.Configuration.Schedule.{
  ScheduleConfig, within, time_of_numbers, parse_hhmm, in_window, is_in_schedule_window,
}

-- The minutes from a time of day on, around the clock.
abbrev pub after_start : ℕ → ℕ → ℕ
after_start start t = (t + 1440 - start) % 1440

time_of_numbers_le :
    (a b : Option ℤ) (n : ℕ) → time_of_numbers (within 24 a) (within 59 b) ≡ some n → n ≤ 1440
time_of_numbers_le none b n h = cc
time_of_numbers_le (some (negsuc x)) b n h = cc
time_of_numbers_le (some (pos x)) none n h = ground arith
time_of_numbers_le (some (pos x)) (some (negsuc y)) n h = ground arith
time_of_numbers_le (some (pos x)) (some (pos y)) n h = ground arith

pub parse_hhmm_le : (s : Text) (n : ℕ) → parse_hhmm s ≡ some n → n ≤ 1440
unfolding parse_hhmm
parse_hhmm_le s n h = elim (Option-cases (cut 58 s)) [
  | inl absent ↦ absurd (cc (rw absent at h))
  | inr ((a, b), there) ↦
      time_of_numbers_le (atoi (trim_space a)) (atoi (trim_space b)) n (rw there at h)
]

in_window-cyclic :
    (now start end : ℕ)
    → now < 1440
    → start ≤ 1440
    → end ≤ 1440
    → in_window now (some start) (some end) ≡ (
        (start == end)
        || (start == 0 && end == 1440)
        || ltb (after_start start now) (after_start start end))
unfolding in_window
in_window-cyclic now start end a b c = ground arith

-- The window as a set of minutes of the day: all of them, or those that come after the start before
-- the end does, around the clock.
abbrev pub in_minutes : Option ℕ → Option ℕ → ℕ → Bool
in_minutes (some start) (some end) t =
    (start == end)
    || (start == 0 && end == 1440)
    || ltb (after_start start t) (after_start start end)
in_minutes _ _ t = true

in_window-in_minutes :
    (now : ℕ) (a b : Option ℕ)
    → now < 1440
    → ((n : ℕ) → a ≡ some n → n ≤ 1440)
    → ((n : ℕ) → b ≡ some n → n ≤ 1440)
    → in_window now a b ≡ in_minutes a b now
unfolding in_window
in_window-in_minutes now none b h k l = refl
in_window-in_minutes now (some start) none h k l = refl
in_window-in_minutes now (some start) (some end) h k l =
    in_window-cyclic now start end h (k start refl) (l end refl)

parse_hhmm-empty : (s : Text) → is_empty s ≡ true → parse_hhmm s ≡ none
unfolding parse_hhmm cut
parse_hhmm-empty [] h = refl
parse_hhmm-empty (c ∷ s) h = cc

-- The schedule lets the plugin run at a time exactly when the window is off, one of its two times is
-- missing or malformed, the two are equal or from 00:00 to 24:00, or fewer minutes have passed since
-- the start of the window than there are from the start to the end, counted around the clock.
pub is_in_schedule_window_iff :
    (now : Time) (cfg : ScheduleConfig)
    → is_in_schedule_window now cfg ≡ (
        not cfg.window_enabled
        || in_minutes
            (parse_hhmm (trim_space cfg.window_start))
            (parse_hhmm (trim_space cfg.window_end))
            (minute_of_day now))
unfolding is_in_schedule_window minute_of_day
is_in_schedule_window_iff now cfg =
    let start = trim_space cfg.window_start in
    let end = trim_space cfg.window_end in
    let t = minute_of_day now in
    ground (
      arith,
      in_window-in_minutes t (parse_hhmm start) (parse_hhmm end) (omega arith) (parse_hhmm_le start)
          (parse_hhmm_le end),
      parse_hhmm-empty start,
      parse_hhmm-empty end,
    )
