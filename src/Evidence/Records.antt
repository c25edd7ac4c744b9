-- ===== src/Evidence/Records.antt =====
-- internal/evidence/evidence.go: its records, and the result of a probe of internal/provider.
use cpa_antigravity_quota_gu.Prelude.{Bool, true, false, Option, List, ℤ, Text}
use cpa_antigravity_quota_gu.Guard.Types.{Time}
use cpa_antigravity_quota_gu.Priority.Quota.{PlanQuotaEvidence}
use cpa_antigravity_quota_gu.Priority.Items.{Credential}

-- `antigravity.Status`; the last constructor holds any other string.
pub data Status : Type 0 where
  status_ready status_probe_failed : Status
  other_status : Text → Status

abbrev pub is_ready : Status → Bool
is_ready status_ready = true
is_ready _ = false

pub record ProbeResult : Type 0 where
  pub provider : Text
  pub auth_index : Text
  pub model_group : Text
  pub observed_at : Time
  pub reset_at : Option Time
  pub remaining : Option ℤ
  pub window : Text
  pub short_window_reset_at : Option Time
  pub short_window_remaining : Option ℤ
  pub long_window_reset_at : Option Time
  pub long_window_remaining : Option ℤ
  pub status : Status
  pub plan_type : Text
  pub error : Text

-- The constants of the type; the zero value "" occurs nowhere.
pub data ObservationKind : Type 0 where
  observation_fresh observation_historical observation_failed : ObservationKind
  observation_invalid observation_wrong_group observation_unknown : ObservationKind

abbrev pub is_historical : ObservationKind → Bool
is_historical observation_historical = true
is_historical _ = false

pub record Round : Type 0 where
  pub id : Text
  pub model_group : Text

pub record ProbeObservation : Type 0 where
  pub round_id : Text
  pub result : ProbeResult

pub record HistoricalObservation : Type 0 where
  pub auth_index : Text
  pub model_group : Text
  pub evidence : PlanQuotaEvidence
  pub last_error : Text
  pub failure_at : Time

pub record Observation : Type 0 where
  pub auth_index : Text
  pub model_group : Text
  pub kind : ObservationKind
  pub observed_at : Time
  pub evidence : Option PlanQuotaEvidence
  pub failure : Text

pub record Result : Type 0 where
  pub eligible : List PlanQuotaEvidence
  pub observations : List Observation

pub record Input : Type 0 where
  pub round : Round
  pub credentials : List Credential
  pub probes : List ProbeObservation
  pub historical : List HistoricalObservation
