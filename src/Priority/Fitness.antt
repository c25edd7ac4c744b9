-- ===== src/Priority/Fitness.antt =====
-- internal/priority/planner.go: what planItems makes of each kind of account.
use cpa_antigravity_quota_gu.Prelude.{
  ◌≡◌, refl, true, false, ◌&&◌, inl, inr, Option, none, some, List, [], ◌∷◌, Bool-cases, lookup,
  All,
}
use cpa_antigravity_quota_gu.Priority.Quota.{PlanQuotaEvidence, QuotaMetrics, extract_quota_metrics}
use cpa_antigravity_quota_gu.Priority.Items.{
  Credential, PlanItem, Options, quota_evidence_by_auth_index, current_item, judge_item,
  observe_item, observed_item, item_with, plan_item, plan_items,
}
use cpa_antigravity_quota_gu.Priority.Placed.{Fit}

-- Evidence leaves an item fit for the ranking.
judge_item-Fit :
    (m : QuotaMetrics) (x : PlanItem) → x.has_quota_evidence ≡ true → Fit (judge_item m x)
unfolding judge_item
judge_item-Fit m x h = elim (Bool-cases m.is_weekly_depleted) [
  | inl weekly ↦ rw weekly (refl, refl)
  | inr more ↦ elim (Bool-cases m.is_short_depleted) [
    | inl short ↦ rw (more, short) (refl, refl)
    | inr well ↦ rw (more, well) (refl, h)
  ]
]

item_with-Fit :
    (o : Options) (fresh historical : Option PlanQuotaEvidence) (c : Credential)
    → Fit (item_with o.now fresh historical (current_item c))
unfolding item_with observe_item current_item
item_with-Fit o (some q) h c =
    let m = extract_quota_metrics q o.now in
    judge_item-Fit m (observed_item m true q (current_item c)) refl
item_with-Fit o none (some q) c =
    let m = extract_quota_metrics q o.now in
    judge_item-Fit m (observed_item m false q (current_item c)) refl
item_with-Fit o none none c = (refl, refl)

pub plan_items-Fit :
    (cs : List Credential) (fresh historical : List PlanQuotaEvidence) (o : Options)
    → All Fit (plan_items cs fresh historical o)
unfolding plan_items plan_item
plan_items-Fit [] fresh historical o = tt
plan_items-Fit (c ∷ cs) fresh historical o =
    let rest = plan_items-Fit cs fresh historical o in
    elim (Bool-cases (c.disabled && o.ignore_disabled_host)) [
      | inl ignored ↦ rw ignored (unfold current_item in (refl, refl), rest)
      | inr eligible ↦ rw eligible (
        item_with-Fit o (lookup c.auth_index (quota_evidence_by_auth_index fresh))
            (lookup c.auth_index (quota_evidence_by_auth_index historical)) c,
        rest,
      )
    ]
