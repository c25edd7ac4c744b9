-- ===== src/Configuration/Dynamic.antt =====
-- internal/config/config.go: the settings that change at run time, and the whole configuration.
use cpa_antigravity_quota_gu.Prelude.{
  Bool, ◌&&◌, ◌||◌, not, Option, none, some, if◌then◌else◌, ℤ, pos, ltb_ℤ, leb_ℤ, Text, text_eq,
}
use cpa_antigravity_quota_gu.Guard.Types.{Duration, Float64, minute}
use cpa_antigravity_quota_gu.Guard.Reset.{not_finite}
use cpa_antigravity_quota_gu.Priority.Floats.{less, float_zero, ratio}
use cpa_antigravity_quota_gu.Configuration.Schedule.{validate_schedule_window}
use cpa_antigravity_quota_gu.Configuration.Records.{
  GuardConfig, GuardDynamic, PluginConfig, DynamicConfig, Library, default_guard,
}
use cpa_antigravity_quota_gu.Configuration.Paths.{
  path_clean, is_dot, normalized_path, validate_plugin_data_path,
}
use cpa_antigravity_quota_gu.Configuration.Groups.{parse_model_group}
use cpa_antigravity_quota_gu.Configuration.Guarding.{
  ◌>>=◌, validate_guard_config, to_config, guard_dynamic, guard_is_zero,
}

-- A number outside of its bounds.
abbrev pub outside : ℤ → ℤ → ℤ → Bool
outside least most n = ltb_ℤ n least || ltb_ℤ most n

unfoldable pub tolerance_invalid : Float64 → Bool
unfolding less ratio
tolerance_invalid x = not_finite x || less x float_zero || less (ratio 5 10) x

-- The interval of the dynamic configuration, if it is one that is allowed.
abbrev pub long_enough : Option Duration → Option Duration
long_enough none = none
long_enough (some d) =
    if leb_ℤ d (pos 0) then none else if ltb_ℤ d (pos minute) then none else some d

-- The guard settings to use.
abbrev pub guard_or_default : Library → GuardDynamic → GuardDynamic
guard_or_default l g = if guard_is_zero g then guard_dynamic l default_guard else g

-- The checks of `DynamicConfig.Validate` between the model group and the guard.
unfoldable pub check_numbers : DynamicConfig → Bool
unfolding tolerance_invalid validate_schedule_window
check_numbers d =
    not (outside (pos 1) (pos 32) d.max_concurrency)
    && not (outside (pos 0) (pos 100) d.min_change)
    && not (tolerance_invalid d.urgency_tolerance)
    && not (outside (pos 1) (pos 1440) d.rate_limit_cooldown_minutes)
    && not (outside (pos 1) (pos 999) d.priority_rules.boost_start_priority)
    && not (outside (pos 1) (pos 999) d.priority_rules.normal_start_priority)
    && not (ltb_ℤ d.priority_rules.boost_start_priority d.priority_rules.normal_start_priority)
    && not (outside (pos 2) (pos 30) d.quota_sample_capacity)
    && validate_schedule_window d.schedule.window_start d.schedule.window_end

-- `DynamicConfig.Validate`, with what it parses on the way.
unfoldable pub validate_dynamic : Library → DynamicConfig → Option (Duration × Text × GuardConfig)
unfolding parse_model_group check_numbers guard_is_zero to_config
validate_dynamic l d = if d.auto_apply then none else (do
  interval ← long_enough (l.parse_duration d.interval)
  group ← parse_model_group d.antigravity_model_group
  guard ← (if check_numbers d then to_config l (guard_or_default l d.guard) else none)
  some (interval, group, guard))

-- `DynamicConfig.ApplyTo`; on an error the source returns the base as well.
unfoldable pub apply_to : Library → DynamicConfig → PluginConfig → Option PluginConfig
unfolding validate_dynamic
apply_to l d base = do
  (interval, group, guard) ← validate_dynamic l d
  some (record base {
    auto_apply = d.auto_apply;
    interval = interval;
    antigravity_model_group = group;
    max_concurrency = d.max_concurrency;
    min_change = d.min_change;
    urgency_tolerance = d.urgency_tolerance;
    rate_limit_cooldown_minutes = d.rate_limit_cooldown_minutes;
    quota_sample_capacity = d.quota_sample_capacity;
    ignore_disabled_host = d.ignore_disabled_host;
    priority_rules = d.priority_rules;
    schedule = d.schedule;
    guard = guard;
  })

-- `Config.Dynamic`
abbrev pub plugin_dynamic : Library → PluginConfig → DynamicConfig
plugin_dynamic l c = record {
  auto_apply = c.auto_apply;
  interval = l.duration_string c.interval;
  antigravity_model_group = c.antigravity_model_group;
  max_concurrency = c.max_concurrency;
  min_change = c.min_change;
  urgency_tolerance = c.urgency_tolerance;
  rate_limit_cooldown_minutes = c.rate_limit_cooldown_minutes;
  quota_sample_capacity = c.quota_sample_capacity;
  ignore_disabled_host = c.ignore_disabled_host;
  priority_rules = c.priority_rules;
  schedule = c.schedule;
  guard = guard_dynamic l c.guard;
}

-- `Config.Validate`; true where the source returns no error.
unfoldable pub validate_plugin_config : Library → PluginConfig → Bool
unfolding validate_plugin_data_path path_clean text_eq validate_guard_config
validate_plugin_config l c =
    let legacy_path = path_clean (normalized_path c.state_cache_path) in
    let guard_path = path_clean (normalized_path c.guard.state_path) in
    not c.auto_apply
    && validate_plugin_data_path c.state_cache_path
    && not (not (is_dot legacy_path) && l.equal_fold legacy_path guard_path)
    && validate_guard_config c.guard
