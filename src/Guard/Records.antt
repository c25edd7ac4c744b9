-- ===== src/Guard/Records.antt =====
-- internal/guard/types.go: the configuration, the entries, and what the operations take and give.
use cpa_antigravity_quota_gu.Prelude.{
  ℕ, ◌*◌, Bool, false, Option, none, List, [], ℤ, pos, Text, Dict,
}
use cpa_antigravity_quota_gu.Guard.Types.{
  Duration, Float64, Mode, ModelGroup, Policy, Reason, State, Time, fail_closed, minute, second,
}

pub record Config : Type 0 where
  pub generic_429_threshold : ℤ
  pub generic_429_window : Duration
  pub generic_429_initial_cooldown : Duration
  pub generic_429_max_cooldown : Duration
  pub half_open_lease : Duration
  pub evidence_max_age : Duration
  pub unknown_auth_policy : Policy
  pub unknown_model_policy : Policy

unfoldable pub default_config : Config
default_config = record {
  generic_429_threshold = pos 2;
  generic_429_window = pos minute;
  generic_429_initial_cooldown = pos (15 * minute);
  generic_429_max_cooldown = pos (30 * minute);
  half_open_lease = pos (30 * second);
  evidence_max_age = pos (30 * minute);
  unknown_auth_policy = fail_closed;
  unknown_model_policy = fail_closed;
}

pub record Identity : Type 0 where
  pub auth_id : Text
  pub auth_index : Text
  pub identity_fingerprint : Text
  pub provider : Text
  pub priority : ℤ

pub record Entry : Type 0 where
  pub auth_id : Text
  pub auth_index : Text
  pub identity_fingerprint : Text
  pub provider : Text
  pub priority : ℤ
  pub model_group : ModelGroup
  pub state : State
  pub reason : Reason
  pub opened_at : Time
  pub recover_at : Time
  pub reset_at : Time
  pub failure_count : ℤ
  pub last_failure_at : Time
  pub half_open_started_at : Time
  pub half_open_lease_until : Time
  pub last_evidence_source : Text
  pub last_evidence_at : Time
  pub last_quota_evidence_at : Time
  pub remaining_percent : Option Float64
  pub half_open_request_id : Text

pub record Document : Type 0 where
  pub schema_version : ℤ
  pub updated_at : Time
  pub entries : List Entry

-- `headers` is the http.Header: each canonical key with its values.
pub record UsageObservation : Type 0 where
  pub request_id : Text
  pub provider : Text
  pub model : Text
  pub auth_id : Text
  pub auth_index : Text
  pub failed : Bool
  pub status_code : ℤ
  pub body : Text
  pub headers : Dict (List Text)
  pub requested_at : Time
  pub observed_at : Time

-- `none` is the empty group of a result.
pub record ObservationResult : Type 0 where
  pub handled : Bool
  pub changed : Bool
  pub group : Option ModelGroup
  pub state : Option State
  pub reason : Reason

pub record QuotaEvidence : Type 0 where
  pub auth_index : Text
  pub auth_id : Text
  pub identity_fingerprint : Text
  pub group : ModelGroup
  pub remaining : Float64
  pub reset_at : Time
  pub observed_at : Time
  pub source : Text

pub record EvidenceResult : Type 0 where
  pub changed : Bool
  pub ignored : Bool
  pub state : State
  pub reason : Reason

pub record Candidate : Type 0 where
  pub auth_id : Text
  pub auth_index : Text
  pub provider : Text
  pub priority : ℤ

pub record PickRequest : Type 0 where
  pub now : Time
  pub request_id : Text
  pub provider : Text
  pub providers : List Text
  pub model : Text
  pub candidates : List Candidate
  pub mode : Mode
  pub enforced_groups : List ModelGroup
  pub unknown_auth_policy : Policy
  pub unknown_model_policy : Policy

-- The error codes; `no_code` is the empty string.
pub data ErrorCode : Type 0 where
  no_code model_cooldown quota_group_unknown auth_unknown auth_uninitialized no_eligible_auth
        guard_not_ready :
      ErrorCode

pub record PickResult : Type 0 where
  pub selected_auth_id : Text
  pub selected_auth_index : Text
  pub handled : Bool
  pub observe_only : Bool
  pub all_cooling : Bool
  pub retry_after : Duration
  pub error_code : ErrorCode
  pub group : Option ModelGroup
  pub excluded : ℕ

-- `PickResult{}`
abbrev pub empty_pick : PickResult
empty_pick = record {
  selected_auth_id = [];
  selected_auth_index = [];
  handled = false;
  observe_only = false;
  all_cooling = false;
  retry_after = pos 0;
  error_code = no_code;
  group = none;
  excluded = 0;
}

-- The counters are uint64; the latency is kept in microseconds.
pub record Metrics : Type 0 where
  pub cooldown_open : ℕ
  pub cooldown_opened_total : ℕ
  pub scheduler_excluded_total : ℕ
  pub scheduler_pick_total : ℕ
  pub fail_closed_total : ℕ
  pub half_open_attempt_total : ℕ
  pub half_open_success_total : ℕ
  pub half_open_failure_total : ℕ
  pub quota_probe_success_total : ℕ
  pub quota_probe_error_total : ℕ
  pub quota_evidence_stale : ℕ
  pub state_persist_error_total : ℕ
  pub unknown_auth_total : ℕ
  pub unknown_model_total : ℕ
  pub usage_event_dirty_backlog : ℕ
  pub scheduler_latency_micros : ℕ

abbrev pub no_metrics : Metrics
no_metrics = record {
  cooldown_open = 0;
  cooldown_opened_total = 0;
  scheduler_excluded_total = 0;
  scheduler_pick_total = 0;
  fail_closed_total = 0;
  half_open_attempt_total = 0;
  half_open_success_total = 0;
  half_open_failure_total = 0;
  quota_probe_success_total = 0;
  quota_probe_error_total = 0;
  quota_evidence_stale = 0;
  state_persist_error_total = 0;
  unknown_auth_total = 0;
  unknown_model_total = 0;
  usage_event_dirty_backlog = 0;
  scheduler_latency_micros = 0;
}

pub record SelectionEvent : Type 0 where
  pub at : Time
  pub request_id : Text
  pub provider : Text
  pub providers : List Text
  pub model : Text
  pub model_group : Option ModelGroup
  pub mode : Mode
  pub selected_auth_id : Text
  pub selected_auth_index : Text
  pub handled : Bool
  pub observe_only : Bool
  pub error_code : ErrorCode
  pub excluded : ℕ

pub record Snapshot : Type 0 where
  pub generated_at : Time
  pub entries : List Entry
  pub earliest_recover : Dict Time
  pub metrics : Metrics
  pub last_selection : Option SelectionEvent
