-- ===== src/Evidence/Classify.antt =====
-- internal/evidence/evidence.go: Classify, its three loops and the checks of each turn.
use cpa_antigravity_quota_gu.Prelude.{
  Bool, true, ◌&&◌, ◌||◌, not, Option, none, some, List, [], ◌∷◌, ◌++◌, if◌then◌else◌, Text,
  text_eq, is_empty, trim_space, Dict, lookup, insert,
}
use cpa_antigravity_quota_gu.Priority.Quota.{PlanQuotaEvidence, present}
use cpa_antigravity_quota_gu.Priority.Items.{Credential}
use cpa_antigravity_quota_gu.Priority.Plan.{EvidenceSource}
use cpa_antigravity_quota_gu.Evidence.Records.{
  is_ready, ProbeResult, ObservationKind, observation_fresh, observation_historical,
  observation_failed, observation_invalid, observation_wrong_group, is_historical, Round,
  ProbeObservation, HistoricalObservation, Observation, Result, Input,
}
use cpa_antigravity_quota_gu.Evidence.Checks.{
  known_credentials, is_known, historical_auth_index, historical_model_group, valid_quota_evidence,
  quota_evidence_from_probe, quota_observation, failed_observation, wrong_group_observation,
}

-- `removeObservationForAuth` for the kind historical
unfoldable pub remove_historical : Text → List Observation → List Observation
unfolding text_eq
remove_historical auth_index [] = []
remove_historical auth_index (o ∷ os) =
    let rest = remove_historical auth_index os in
    if text_eq o.auth_index auth_index && is_historical o.kind then rest else o ∷ rest

-- One turn of the first loop, over the stored observations.
unfoldable pub see_historical :
    Dict Credential → Round → HistoricalObservation → List Observation → List Observation
unfolding text_eq valid_quota_evidence
see_historical known round h os =
    if is_empty (historical_auth_index h)
      || not (text_eq (historical_model_group h) round.model_group)
    then os
    else if not (is_known known (historical_auth_index h))
    then os
    else if not (valid_quota_evidence h.evidence round.model_group)
    then os
    else os
      ++ (record (quota_observation observation_historical h.evidence) {
        model_group = round.model_group;
      }
          ∷ [])

unfoldable pub scan_historical :
    Dict Credential → Round → List HistoricalObservation → List Observation → List Observation
unfolding see_historical
scan_historical known round [] os = os
scan_historical known round (h ∷ hs) os =
    scan_historical known round hs (see_historical known round h os)

-- `result` and `currentAuthIndexes`
pub record ProbeScan : Type 0 where
  pub result : Result
  pub current_auth_indexes : Dict ObservationKind

-- An observation of the account, kept as its current one.
abbrev pub note : Observation → ObservationKind → Text → ProbeScan → ProbeScan
note o kind auth_index s = record {
  result = record s.result { observations = s.result.observations ++ (o ∷ []) };
  current_auth_indexes = insert auth_index kind s.current_auth_indexes;
}

abbrev pub note_failed : ProbeResult → ProbeScan → ProbeScan
note_failed r s =
    let kind = if is_ready r.status then observation_invalid else observation_failed in
    note (failed_observation r kind) kind r.auth_index s

-- A result of another round.
unfoldable pub see_other_round : ProbeResult → Option PlanQuotaEvidence → ProbeScan → ProbeScan
unfolding insert trim_space
see_other_round r none s = note_failed r s
see_other_round r (some q) s =
    if is_ready r.status
    then note (quota_observation observation_historical q) observation_historical r.auth_index s
    else note_failed r s

-- A result of this round.
unfoldable pub see_this_round : ProbeResult → Option PlanQuotaEvidence → ProbeScan → ProbeScan
unfolding insert trim_space remove_historical
see_this_round r none s = note_failed r s
see_this_round r (some q) s =
    if is_ready r.status
    then record {
      result = record {
        eligible = s.result.eligible ++ (q ∷ []);
        observations =
            remove_historical r.auth_index s.result.observations
            ++ (quota_observation observation_fresh q ∷ []);
      };
      current_auth_indexes = insert r.auth_index observation_fresh s.current_auth_indexes;
    }
    else note_failed r s

-- One turn of the second loop, over the probes.
unfoldable pub see_probe : Dict Credential → Round → ProbeObservation → ProbeScan → ProbeScan
unfolding text_eq insert quota_evidence_from_probe see_other_round see_this_round
see_probe known round p s =
    let r = p.result in
    if is_empty r.auth_index
    then s
    else if not (is_known known r.auth_index)
    then s
    else if not (text_eq r.model_group round.model_group)
    then note (wrong_group_observation r) observation_wrong_group r.auth_index s
    else if not (text_eq p.round_id round.id)
    then see_other_round r (quota_evidence_from_probe r round.model_group) s
    else see_this_round r (quota_evidence_from_probe r round.model_group) s

unfoldable pub scan_probes : Dict Credential → Round → List ProbeObservation → ProbeScan → ProbeScan
unfolding see_probe
scan_probes known round [] s = s
scan_probes known round (p ∷ ps) s = scan_probes known round ps (see_probe known round p s)

-- One turn of the third loop, over the stored failures.
abbrev pub stored_failure : HistoricalObservation → Observation
stored_failure h = record {
  auth_index = historical_auth_index h;
  model_group = historical_model_group h;
  kind = observation_failed;
  observed_at = h.failure_at;
  evidence = none;
  failure = h.last_error;
}

unfoldable pub see_failure :
    Dict Credential
    → Round
    → Dict ObservationKind
    → HistoricalObservation
    → List Observation
    → List Observation
unfolding text_eq
see_failure known round current h os =
    if is_empty h.last_error
      || is_empty (historical_auth_index h)
      || not (text_eq (historical_model_group h) round.model_group)
    then os
    else if not (is_known known (historical_auth_index h))
    then os
    else if present (lookup (historical_auth_index h) current)
    then os
    else os ++ (stored_failure h ∷ [])

unfoldable pub scan_failures :
    Dict Credential
    → Round
    → Dict ObservationKind
    → List HistoricalObservation
    → List Observation
    → List Observation
unfolding see_failure
scan_failures known round current [] os = os
scan_failures known round current (h ∷ hs) os =
    scan_failures known round current hs (see_failure known round current h os)

-- `Classify`
abbrev pub no_scan : List Observation → ProbeScan
no_scan os = record {
  result = record { eligible = []; observations = os };
  current_auth_indexes = [];
}

unfoldable pub classify : Input → Result
unfolding known_credentials lookup scan_historical scan_probes scan_failures
classify i =
    let known = known_credentials i.credentials in
    let s =
      scan_probes known i.round i.probes
        (no_scan (scan_historical known i.round i.historical [])) in
    record s.result {
      observations =
          scan_failures known i.round s.current_auth_indexes i.historical s.result.observations;
    }

-- `FreshQuotaEvidence`, `HistoricalQuotaEvidence`: what the planner is given.
abbrev pub historical_evidence_of : Bool → Option PlanQuotaEvidence → List PlanQuotaEvidence
historical_evidence_of true (some q) = q ∷ []
historical_evidence_of _ _ = []

unfoldable pub historical_quota_evidence : List Observation → List PlanQuotaEvidence
historical_quota_evidence [] = []
historical_quota_evidence (o ∷ os) =
    historical_evidence_of (is_historical o.kind) o.evidence ++ historical_quota_evidence os

unfoldable pub as_evidence_source : Result → EvidenceSource
unfolding historical_quota_evidence
as_evidence_source r = record {
  fresh = r.eligible;
  historical = historical_quota_evidence r.observations;
}
