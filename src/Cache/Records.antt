-- ===== src/Cache/Records.antt =====
-- internal/state/store.go: the entries of the cache, the store, and what its operations take.
use cpa_antigravity_quota_gu.Prelude.{ℕ, Bool, false, Option, none, List, [], ℤ, pos, Text, Dict}
use cpa_antigravity_quota_gu.Guard.Types.{Time, Duration, Float64}
use cpa_antigravity_quota_gu.Priority.Floats.{float_zero}
use cpa_antigravity_quota_gu.Configuration.Schedule.{ScheduleConfig}
use cpa_antigravity_quota_gu.Configuration.Records.{DynamicConfig}
use cpa_antigravity_quota_gu.Cache.Normalize.{QuotaSample}

-- `state.Entry`
pub record CacheEntry : Type 0 where
  pub schema_version : ℤ
  pub provider : Text
  pub model_group : Text
  pub auth_index : Text
  pub observed_at : Time
  pub reset_at : Time
  pub remaining : ℤ
  pub short_window_reset_at : Time
  pub short_window_remaining : Option ℤ
  pub long_window_reset_at : Time
  pub long_window_remaining : Option ℤ
  pub cycle_burn_rate : Float64
  pub samples : List QuotaSample
  pub learning_baseline_sequence : ℕ
  pub last_error : Text
  pub last_failure_at : Time
  pub next_probe_at : Time
  pub auth_invalid : Bool
  pub plan_type : Text
  pub source : Text

-- The zero value, which a missing key reads as.
abbrev pub no_cache_entry : CacheEntry
no_cache_entry = record {
  schema_version = pos 0;
  provider = [];
  model_group = [];
  auth_index = [];
  observed_at = 0;
  reset_at = 0;
  remaining = pos 0;
  short_window_reset_at = 0;
  short_window_remaining = none;
  long_window_reset_at = 0;
  long_window_remaining = none;
  cycle_burn_rate = float_zero;
  samples = [];
  learning_baseline_sequence = 0;
  last_error = [];
  last_failure_at = 0;
  next_probe_at = 0;
  auth_invalid = false;
  plan_type = [];
  source = [];
}

pub record ProbePolicy : Type 0 where
  pub ttl : Duration
  pub reset_stale_after : Duration

pub record ProbeCheck : Type 0 where
  pub auth_index : Text
  pub provider : Text
  pub model_group : Text
  pub now : Time
  pub policy : ProbePolicy

pub record ProbeSuccess : Type 0 where
  pub auth_index : Text
  pub provider : Text
  pub model_group : Text
  pub observed_at : Time
  pub reset_at : Time
  pub remaining : ℤ
  pub short_window_reset_at : Time
  pub short_window_remaining : Option ℤ
  pub long_window_reset_at : Time
  pub long_window_remaining : Option ℤ
  pub next_probe_at : Time
  pub auth_invalid : Bool
  pub plan_type : Text
  pub source : Text
  pub sample_capacity : ℤ
  pub probe_round_id : Text

pub record ProbeSampleRecord : Type 0 where
  pub auth_index : Text
  pub model_group : Text
  pub sample : QuotaSample

-- The text of the error, if there is one.
pub record ProbeFailure : Type 0 where
  pub auth_index : Text
  pub provider : Text
  pub model_group : Text
  pub observed_at : Time
  pub err : Option Text
  pub next_probe_at : Time

pub record ProbeSchedule : Type 0 where
  pub auth_index : Text
  pub provider : Text
  pub model_group : Text
  pub next_probe_at : Time

pub record CooldownEntry : Type 0 where
  pub auth_index : Text
  pub model_group : Text
  pub triggered_at : Time
  pub cooldown_until : Time
  pub reason : Text

-- `Store`; bytes are texts, and a nil map is an empty one.
pub record CacheStore : Type 0 where
  pub path : Text
  pub entries : Dict CacheEntry
  pub latest_audit : Text
  pub latest_result : Text
  pub run_history : Text
  pub schedule_config : Option ScheduleConfig
  pub dynamic_config : Option DynamicConfig
  pub cooldowns : Dict CooldownEntry

-- `document`
pub record CacheDocument : Type 0 where
  pub schema_version : ℤ
  pub entries : Dict CacheEntry
  pub latest_audit : Text
  pub latest_result : Text
  pub run_history : Text
  pub schedule_config : Option ScheduleConfig
  pub dynamic_config : Option DynamicConfig
  pub cooldowns : Dict CooldownEntry
