-- ===== src/Configuration/Examples.antt =====
-- internal/config on the default configuration, with a printer of durations that is read back.
use cpa_antigravity_quota_gu.Prelude.{
  ◌≢◌, text_eq_iff, ◌≡◌, refl, true, false, Option, none, some, [], ◌∷◌, ◌*◌, ◌+◌, pos, negsuc,
  Text, codes, text_eq, trim_space, arith,
}
use cpa_antigravity_quota_gu.Guard.Types.{Time, Duration, minute, second}
use cpa_antigravity_quota_gu.Configuration.Schedule.{
  ScheduleConfig, parse_hhmm, is_in_schedule_window, next_window_start,
}
use cpa_antigravity_quota_gu.Configuration.Clock.{minute_of_day}
use cpa_antigravity_quota_gu.Configuration.Window.{in_minutes, is_in_schedule_window_iff}
use cpa_antigravity_quota_gu.Configuration.Records.{
  GuardConfig, GuardDynamic, PluginConfig, DynamicConfig, Library, default_guard,
  default_plugin_config,
}
use cpa_antigravity_quota_gu.Configuration.Paths.{
  path_clean, normalized_path, validate_plugin_data_path,
}
use cpa_antigravity_quota_gu.Configuration.Contained.{
  Contained, validate_plugin_data_path-Contained,
}
use cpa_antigravity_quota_gu.Configuration.Groups.{yaml_text}
use cpa_antigravity_quota_gu.Configuration.Guarding.{to_config, guard_dynamic}
use cpa_antigravity_quota_gu.Configuration.Dynamic.{plugin_dynamic, apply_to}
use cpa_antigravity_quota_gu.Configuration.Raw.{Json, RawConfig, load_raw}
use cpa_antigravity_quota_gu.Configuration.Safe.{SafeGuard, to_config-SafeGuard}
use cpa_antigravity_quota_gu.Configuration.Bounded.{Applied, apply_to-Applied}
use cpa_antigravity_quota_gu.Configuration.Loaded.{Loaded, cache_form, state_form, load_raw-Loaded}
use cpa_antigravity_quota_gu.Configuration.RoundTrip.{Reads, to_config-Dynamic}

-- A duration is written as its number between two letters.
abbrev read_number : Text → Option Duration
read_number (_ ∷ n ∷ _ ∷ []) = some (pos n)
read_number _ = none

abbrev plain : Library
plain = record {
  parse_duration = read_number;
  duration_string = λ d. write d;
  equal_fold = λ a b. text_eq a b;
}
  where
    write : Duration → Text
    write (pos n) = 76 ∷ n ∷ 76 ∷ []
    write (negsuc n) = []

plain-Reads : Reads plain
unfolding trim_space
plain-Reads (pos n) h = refl
plain-Reads (negsuc n) h = absurd (omega arith)

-- Ten at night, outside of a window from nine to five.
abbrev ten_at_night : Time
ten_at_night = 22 * 60 * minute + 5000000007

abbrev office_hours : ScheduleConfig
office_hours = record {
  paused = false;
  window_enabled = true;
  window_start = codes "09:00";
  window_end = codes " 17:00";
}

-- Eleven hours less the five seconds that have passed.
wait_until_nine : next_window_start ten_at_night office_hours ≡ 39595 * second
unfolding next_window_start
wait_until_nine = refl

is_in_schedule_window_iff_example :
    is_in_schedule_window ten_at_night office_hours
    ≡ in_minutes (some 540) (some 1020) (minute_of_day ten_at_night)
unfolding parse_hhmm
is_in_schedule_window_iff_example = is_in_schedule_window_iff ten_at_night office_hours

validate_plugin_data_path-Contained_example :
    Contained (path_clean (normalized_path default_guard.state_path))
unfolding validate_plugin_data_path
validate_plugin_data_path-Contained_example =
    validate_plugin_data_path-Contained default_guard.state_path refl

-- The default guard, in capitals and between white space.
abbrev written_guard : GuardDynamic
written_guard = record (guard_dynamic plain default_guard) {
  mode = codes " Observe";
  enforced_groups = codes "Claude GPT" ∷ codes "gemini" ∷ [];
}

abbrev guard_or : GuardConfig → Option GuardConfig → GuardConfig
guard_or c none = c
guard_or c (some d) = d

abbrev read_guard : GuardConfig
read_guard = guard_or default_guard (to_config plain written_guard)

read_groups : read_guard.enforced_groups ≡ codes "claude_gpt" ∷ codes "gemini" ∷ []
unfolding to_config
read_groups = refl

to_config-SafeGuard_example : SafeGuard read_guard
unfolding to_config
to_config-SafeGuard_example = to_config-SafeGuard plain written_guard read_guard refl

to_config-Dynamic_example : to_config plain (guard_dynamic plain read_guard) ≡ some read_guard
unfolding to_config
to_config-Dynamic_example = to_config-Dynamic plain written_guard read_guard plain-Reads refl

abbrev plugin_or : PluginConfig → Option PluginConfig → PluginConfig
plugin_or c none = c
plugin_or c (some d) = d

abbrev changed_settings : DynamicConfig
changed_settings = record (plugin_dynamic plain default_plugin_config) { max_concurrency = pos 2 }

abbrev applied_settings : PluginConfig
applied_settings =
    plugin_or default_plugin_config (apply_to plain changed_settings default_plugin_config)

apply_to-Applied_example : Applied default_plugin_config applied_settings
unfolding apply_to default_plugin_config
apply_to-Applied_example =
    apply_to-Applied plain changed_settings default_plugin_config applied_settings refl

abbrev no_settings : RawConfig
no_settings = record {
  enabled = none;
  auto_apply = none;
  state_cache_path = none;
  required_scheduler_for = [];
  mode = some (codes "enforce");
  managed_auth = none;
  enforced_groups = codes "\"gemini, claude_gpt\"";
  require_uniform_priority = none;
  probe_interval = none;
  evidence_max_age = none;
  generic_429 = none;
  half_open_lease = none;
  unknown_auth_policy = none;
  unknown_model_policy = none;
  state_path = none;
  generic_429_threshold = some (pos 3);
  generic_429_window = none;
  generic_429_initial_cooldown = none;
  generic_429_max_cooldown = none;
}

-- A decoder that only knows strings without escapes.
abbrev quoted : Json
quoted = record { strings = λ s. none; string = λ s. some (yaml_text s) }

abbrev loaded_settings : PluginConfig
loaded_settings = plugin_or default_plugin_config (load_raw plain quoted (some no_settings))

loaded_mode :
    (loaded_settings.guard.mode ≡ codes "enforce")
    × (loaded_settings.guard.enforced_groups ≡ codes "gemini" ∷ codes "claude_gpt" ∷ [])
unfolding load_raw yaml_text
loaded_mode = (refl, refl)

load_raw-Loaded_example :
    Loaded plain loaded_settings × (cache_form loaded_settings ≢ state_form loaded_settings)
unfolding load_raw yaml_text
load_raw-Loaded_example =
    load_raw-Loaded plain quoted (some no_settings) loaded_settings (λ s. (text_eq_iff s s).1 refl)
      refl
