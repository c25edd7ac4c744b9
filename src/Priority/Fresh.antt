-- ===== src/Priority/Fresh.antt =====
-- internal/priority/planner.go: only fresh evidence changes a credential.
use cpa_antigravity_quota_gu.Prelude.{
  ℕ, ◌≡◌, Bool, true, false, ◌&&◌, some, List, arith, Text, get_elem?,
}
use cpa_antigravity_quota_gu.Guard.Types.{Time}
use cpa_antigravity_quota_gu.Priority.Quota.{PlanQuotaEvidence, QuotaMetrics, extract_quota_metrics}
use cpa_antigravity_quota_gu.Priority.Items.{
  Credential, PlanItem, Options, judge_item, observe_item, observed_item,
}
use cpa_antigravity_quota_gu.Priority.Plan.{Change, Plan}

-- A credential of the list, under planning, with an observation of its index among the fresh ones.
pub record Qualified (credentials : List Credential) (fresh : List PlanQuotaEvidence) (o : Options)
    (c : Credential) : Type 0 where
  pub place : ℕ
  pub listed : get_elem? credentials place ≡ some c
  pub observation : PlanQuotaEvidence
  pub position : ℕ
  pub observed : get_elem? fresh position ≡ some observation
  pub of_index : c.auth_index ≡ observation.auth_index
  pub eligible : (c.disabled && o.ignore_disabled_host) ≡ false

-- The map by index holds observations of the list under their index.
Filed : List PlanQuotaEvidence → Text → PlanQuotaEvidence → Type 0
Filed all k q = (k ≡ q.auth_index) × ((n : ℕ) × (get_elem? all n ≡ some q))

-- A change that fresh evidence of its credential carries.
abbrev pub Grounded : List Credential → List PlanQuotaEvidence → Options → Change → Type 0
Grounded credentials fresh o c =
    (c.evidence_fresh ≡ true) × Qualified credentials fresh o c.credential

judge_item-keeps :
    (m : QuotaMetrics) (x : PlanItem)
    → ((judge_item m x).credential ≡ x.credential)
      × ((judge_item m x).evidence_fresh ≡ x.evidence_fresh)
unfolding judge_item
judge_item-keeps m x = ground arith

pub observe_item-keeps :
    (now : Time) (is_fresh : Bool) (q : PlanQuotaEvidence) (x : PlanItem)
    → ((observe_item now is_fresh q x).credential ≡ x.credential)
      × ((observe_item now is_fresh q x).evidence_fresh ≡ is_fresh)
unfolding observe_item
observe_item-keeps now is_fresh q x =
    let m = extract_quota_metrics q now in judge_item-keeps m (observed_item m is_fresh q x)

module _ (credentials : List Credential) (fresh historical : List PlanQuotaEvidence)
    (o : Options) where
  -- Fresh evidence of an item is evidence of its credential.
  abbrev Sound : PlanItem → Type 0
  Sound x = x.evidence_fresh ≡ true → Qualified credentials fresh o x.credential
