-- ===== src/Configuration/Records.antt =====
-- internal/config/config.go: the configuration records and the default values.
use cpa_antigravity_quota_gu.Prelude.{
  ◌*◌, Bool, true, false, Option, List, [], ◌∷◌, ℤ, pos, Text, codes,
}
use cpa_antigravity_quota_gu.Guard.Types.{Duration, Float64, minute, second}
use cpa_antigravity_quota_gu.Priority.Floats.{ratio}
use cpa_antigravity_quota_gu.Configuration.Schedule.{ScheduleConfig}

pub record Generic429Config : Type 0 where
  pub threshold : ℤ
  pub window : Duration
  pub initial_cooldown : Duration
  pub max_cooldown : Duration

-- A string type is its text.
pub record GuardConfig : Type 0 where
  pub mode : Text
  pub managed_auth : Text
  pub enforced_groups : List Text
  pub require_uniform_priority : Bool
  pub probe_interval : Duration
  pub evidence_max_age : Duration
  pub generic_429 : Generic429Config
  pub half_open_lease : Duration
  pub unknown_auth_policy : Text
  pub unknown_model_policy : Text
  pub state_path : Text

pub record Generic429Dynamic : Type 0 where
  pub threshold : ℤ
  pub window : Text
  pub initial_cooldown : Text
  pub max_cooldown : Text

pub record GuardDynamic : Type 0 where
  pub mode : Text
  pub managed_auth : Text
  pub enforced_groups : List Text
  pub require_uniform_priority : Bool
  pub probe_interval : Text
  pub evidence_max_age : Text
  pub generic_429 : Generic429Dynamic
  pub half_open_lease : Text
  pub unknown_auth_policy : Text
  pub unknown_model_policy : Text
  pub state_path : Text

-- `PriorityRules` and `PriorityRulesConfig` have the same fields.
pub record PriorityRules : Type 0 where
  pub boost_start_priority : ℤ
  pub normal_start_priority : ℤ

-- `config.Config`
pub record PluginConfig : Type 0 where
  pub enabled : Bool
  pub auto_apply : Bool
  pub interval : Duration
  pub antigravity_model_group : Text
  pub max_concurrency : ℤ
  pub min_change : ℤ
  pub urgency_tolerance : Float64
  pub rate_limit_cooldown_minutes : ℤ
  pub quota_sample_capacity : ℤ
  pub ignore_disabled_host : Bool
  pub state_cache_path : Text
  pub required_scheduler_for : List Text
  pub priority_rules : PriorityRules
  pub schedule : ScheduleConfig
  pub guard : GuardConfig

pub record DynamicConfig : Type 0 where
  pub auto_apply : Bool
  pub interval : Text
  pub antigravity_model_group : Text
  pub max_concurrency : ℤ
  pub min_change : ℤ
  pub urgency_tolerance : Float64
  pub rate_limit_cooldown_minutes : ℤ
  pub quota_sample_capacity : ℤ
  pub ignore_disabled_host : Bool
  pub priority_rules : PriorityRules
  pub schedule : ScheduleConfig
  pub guard : GuardDynamic

-- Package time: the parser and the printer of durations. Package strings: EqualFold.
pub record Library : Type 0 where
  pub parse_duration : Text → Option Duration
  pub duration_string : Duration → Text
  pub equal_fold : Text → Text → Bool

abbrev pub guard_mode_observe : Text
guard_mode_observe = codes "observe"

abbrev pub guard_mode_enforce : Text
guard_mode_enforce = codes "enforce"

abbrev pub managed_auth_all_antigravity : Text
managed_auth_all_antigravity = codes "all_antigravity"

abbrev pub guard_policy_fail_closed : Text
guard_policy_fail_closed = codes "fail_closed"

abbrev pub guard_state_directory : Text
guard_state_directory = codes "data/cpa-antigravity-quota-guard"

abbrev pub model_group_gemini : Text
model_group_gemini = codes "gemini"

abbrev pub model_group_claude_gpt : Text
model_group_claude_gpt = codes "claude_gpt"

abbrev pub default_guard : GuardConfig
default_guard = record {
  mode = guard_mode_observe;
  managed_auth = managed_auth_all_antigravity;
  enforced_groups = model_group_gemini ∷ model_group_claude_gpt ∷ [];
  require_uniform_priority = true;
  probe_interval = pos (15 * minute);
  evidence_max_age = pos (30 * minute);
  generic_429 = record {
    threshold = pos 2;
    window = pos minute;
    initial_cooldown = pos (15 * minute);
    max_cooldown = pos (30 * minute);
  };
  half_open_lease = pos (30 * second);
  unknown_auth_policy = guard_policy_fail_closed;
  unknown_model_policy = guard_policy_fail_closed;
  state_path = codes "data/cpa-antigravity-quota-guard/state.json";
}

abbrev pub default_priority_rules : PriorityRules
default_priority_rules = record { boost_start_priority = pos 999; normal_start_priority = pos 100 }

-- `Default`
unfoldable pub default_plugin_config : PluginConfig
unfolding ratio
default_plugin_config = record {
  enabled = true;
  auto_apply = false;
  interval = pos (15 * minute);
  antigravity_model_group = model_group_gemini;
  max_concurrency = pos 6;
  min_change = pos 1;
  urgency_tolerance = ratio 5 100;
  rate_limit_cooldown_minutes = pos 5;
  quota_sample_capacity = pos 6;
  ignore_disabled_host = true;
  state_cache_path = codes "data/cpa-antigravity-quota-guard/quota-cache.json";
  required_scheduler_for = [];
  priority_rules = default_priority_rules;
  schedule = record {
    paused = false;
    window_enabled = false;
    window_start = codes "00:00";
    window_end = codes "23:59";
  };
  guard = default_guard;
}
