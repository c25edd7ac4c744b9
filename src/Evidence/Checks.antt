-- ===== src/Evidence/Checks.antt =====
-- internal/evidence/evidence.go: identities, valid evidence, and the observations of Classify.
use cpa_antigravity_quota_gu.Prelude.{
  Bool, ◌&&◌, ◌||◌, not, Option, none, some, List, [], ◌∷◌, if◌then◌else◌, Text, codes, text_eq,
  is_empty, trim_space, Dict, lookup, insert,
}
use cpa_antigravity_quota_gu.Guard.Types.{is_zero}
use cpa_antigravity_quota_gu.Priority.Floats.{float_zero}
use cpa_antigravity_quota_gu.Priority.Quota.{PlanQuotaEvidence, present}
use cpa_antigravity_quota_gu.Priority.Items.{Credential}
use cpa_antigravity_quota_gu.Evidence.Records.{
  ProbeResult, ObservationKind, observation_wrong_group, HistoricalObservation, Observation,
}

abbrev pub provider_antigravity : Text
provider_antigravity = codes "antigravity"

-- `knownCredentials`
unfoldable pub known_into : Dict Credential → List Credential → Dict Credential
known_into known [] = known
known_into known (c ∷ cs) = known_into (insert c.auth_index c known) cs

unfoldable pub known_credentials : List Credential → Dict Credential
unfolding known_into
known_credentials cs = known_into [] cs

abbrev pub is_known : Dict Credential → Text → Bool
is_known known auth_index = present (lookup auth_index known)

-- `historicalIdentity`
abbrev pub historical_auth_index : HistoricalObservation → Text
historical_auth_index h = if is_empty h.auth_index then h.evidence.auth_index else h.auth_index

abbrev pub historical_model_group : HistoricalObservation → Text
historical_model_group h = if is_empty h.model_group then h.evidence.model_group else h.model_group

-- `validQuotaEvidence`
unfoldable pub valid_quota_evidence : PlanQuotaEvidence → Text → Bool
unfolding text_eq
valid_quota_evidence q group =
    text_eq q.provider provider_antigravity
    && not (is_empty q.auth_index)
    && text_eq q.model_group group
    && not (is_zero q.observed_at)
    && present q.reset_at
    && present q.remaining

-- `quotaEvidenceFromProbe`
abbrev pub probe_quota : ProbeResult → PlanQuotaEvidence
probe_quota r = record {
  auth_index = r.auth_index;
  provider = r.provider;
  model_group = r.model_group;
  observed_at = r.observed_at;
  reset_at = r.reset_at;
  remaining = r.remaining;
  short_window_reset_at = r.short_window_reset_at;
  short_window_remaining = r.short_window_remaining;
  long_window_reset_at = r.long_window_reset_at;
  long_window_remaining = r.long_window_remaining;
  plan_type = r.plan_type;
  cycle_burn_rate = float_zero;
}

unfoldable pub quota_evidence_from_probe : ProbeResult → Text → Option PlanQuotaEvidence
unfolding text_eq
quota_evidence_from_probe r group =
    if not (text_eq r.provider provider_antigravity)
      || not (text_eq r.model_group group)
      || is_empty r.auth_index
      || is_zero r.observed_at
    then none
    else if not (present r.reset_at) || not (present r.remaining)
    then none
    else some (probe_quota r)

-- `freshObservation` and `historicalObservation`
abbrev pub quota_observation : ObservationKind → PlanQuotaEvidence → Observation
quota_observation kind q = record {
  auth_index = q.auth_index;
  model_group = q.model_group;
  kind = kind;
  observed_at = q.observed_at;
  evidence = some q;
  failure = [];
}

-- `failedObservation`
abbrev pub failed_observation : ProbeResult → ObservationKind → Observation
failed_observation r kind = record {
  auth_index = r.auth_index;
  model_group = r.model_group;
  kind = kind;
  observed_at = r.observed_at;
  evidence = none;
  failure = trim_space r.error;
}

abbrev pub wrong_group_observation : ProbeResult → Observation
wrong_group_observation r = record {
  auth_index = r.auth_index;
  model_group = r.model_group;
  kind = observation_wrong_group;
  observed_at = r.observed_at;
  evidence = none;
  failure = codes "probe result belongs to another model group";
}
