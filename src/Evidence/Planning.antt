-- ===== src/Evidence/Planning.antt =====
-- internal/evidence and internal/priority together: what a change of a plan rests on.
use cpa_antigravity_quota_gu.Prelude.{◌≡◌, true}
use cpa_antigravity_quota_gu.Priority.Quota.{PlanQuotaEvidence}
use cpa_antigravity_quota_gu.Priority.Plan.{Change, Plan}
use cpa_antigravity_quota_gu.Evidence.Records.{Input}
use cpa_antigravity_quota_gu.Evidence.Authority.{Authorized}

-- A change with the evidence that authorizes it.
pub record Justified (i : Input) (c : Change) : Type 0 where
  pub evidence : PlanQuotaEvidence
  pub authorized : Authorized i evidence
  pub of_account : c.credential.auth_index ≡ evidence.auth_index
  pub fresh : c.evidence_fresh ≡ true
