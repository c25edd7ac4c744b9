-- ===== src/Evidence/Examples.antt =====
-- internal/evidence on a round of two probes: one is ready, the other failed and has an older result.
use cpa_antigravity_quota_gu.Prelude.{
  inl, ◌+◌, ◌*◌, ◌≡◌, refl, none, some, List, [], ◌∷◌, pos, codes,
}
use cpa_antigravity_quota_gu.Guard.Types.{minute}
use cpa_antigravity_quota_gu.Priority.Items.{Credential}
use cpa_antigravity_quota_gu.Priority.Plan.{Plan, plan_with_evidence}
use cpa_antigravity_quota_gu.Priority.Examples.{noon, bare, defaults, plan_or, changed_indexes}
use cpa_antigravity_quota_gu.Evidence.Records.{
  status_ready, status_probe_failed, ProbeResult, Round, ProbeObservation, HistoricalObservation,
  Input,
}
use cpa_antigravity_quota_gu.Evidence.Checks.{probe_quota}
use cpa_antigravity_quota_gu.Evidence.Classify.{classify, as_evidence_source}
use cpa_antigravity_quota_gu.Evidence.Authority.{granted_evidence, classify-eligible}
use cpa_antigravity_quota_gu.Evidence.Exclusive.{Exclusive, classify-Exclusive}

abbrev this_round : Round
this_round = record { id = codes "r2"; model_group = codes "gemini" }

abbrev two_credentials : List Credential
two_credentials =
    record bare { auth_index = codes "1" } ∷ record bare { auth_index = codes "2" } ∷ []

abbrev ready_result : ProbeResult
ready_result = record {
  provider = codes "antigravity";
  auth_index = codes "1";
  model_group = codes "gemini";
  observed_at = noon;
  reset_at = some (noon + 120 * minute);
  remaining = some (pos 60);
  window = codes "5h";
  short_window_reset_at = none;
  short_window_remaining = none;
  long_window_reset_at = none;
  long_window_remaining = none;
  status = status_ready;
  plan_type = codes "pro";
  error = [];
}

abbrev failed_result : ProbeResult
failed_result = record ready_result {
  auth_index = codes "2";
  reset_at = none;
  remaining = none;
  status = status_probe_failed;
  error = codes "no answer";
}

abbrev of_this_round : ProbeResult → ProbeObservation
of_this_round r = record { round_id = codes "r2"; result = r }

abbrev stored : ProbeResult → HistoricalObservation
stored r = record {
  auth_index = r.auth_index;
  model_group = r.model_group;
  evidence = probe_quota r;
  last_error = [];
  failure_at = 0;
}

abbrev two_probes : Input
two_probes = record {
  round = this_round;
  credentials = two_credentials;
  probes = of_this_round ready_result ∷ of_this_round failed_result ∷ [];
  historical = stored ready_result ∷ stored (record ready_result { auth_index = codes "2" }) ∷ [];
}

one_eligible : (classify two_probes).eligible ≡ probe_quota ready_result ∷ []
unfolding classify
one_eligible = refl

abbrev planned : Plan
planned =
    plan_or (record { decided_at = noon; items = []; changes = [] })
      (plan_with_evidence two_credentials (some (as_evidence_source (classify two_probes)))
        defaults)

planned_changes : changed_indexes planned ≡ codes "1" ∷ []
unfolding plan_with_evidence as_evidence_source classify
planned_changes = refl

classify-eligible_example :
    (classify two_probes).eligible
    ≡ granted_evidence two_probes.credentials two_probes.round two_probes.probes
classify-eligible_example = classify-eligible two_probes

classify-Exclusive_example :
    Exclusive (classify two_probes).eligible (classify two_probes).observations
classify-Exclusive_example = classify-Exclusive two_probes (inl refl, (inl refl, tt))
