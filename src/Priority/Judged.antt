-- ===== src/Priority/Judged.antt =====
-- internal/priority/planner.go: the state of an item is what the evidence of its account says.
use cpa_antigravity_quota_gu.Prelude.{
  ◌≡◌, refl, sym, subst, true, false, ◌&&◌, inl, inr, Option, none, some, List, [], ◌∷◌, Bool-cases,
  lookup, All, if◌then◌else◌,
}
use cpa_antigravity_quota_gu.Guard.Types.{Time}
use cpa_antigravity_quota_gu.Priority.Quota.{PlanQuotaEvidence, QuotaMetrics, extract_quota_metrics}
use cpa_antigravity_quota_gu.Priority.Items.{
  QuotaState, quota_unknown, quota_healthy, quota_short_depleted, quota_weekly_depleted, Credential,
  PlanItem, Options, quota_evidence_by_auth_index, current_item, judge_item, observe_item,
  observed_item, item_with, plan_item, plan_items,
}
use cpa_antigravity_quota_gu.Priority.Fresh.{observe_item-keeps}

-- The observation that counts: the fresh one, else the historical one.
abbrev pub first_evidence :
    Option PlanQuotaEvidence → Option PlanQuotaEvidence → Option PlanQuotaEvidence
first_evidence (some q) _ = some q
first_evidence none h = h

abbrev pub state_by : Time → Option PlanQuotaEvidence → QuotaState
state_by now none = quota_unknown
state_by now (some q) =
    let m = extract_quota_metrics q now in
    if m.is_weekly_depleted
    then quota_weekly_depleted
    else if m.is_short_depleted
    then quota_short_depleted
    else quota_healthy

-- The state of an account from its evidence; one left out of the planning has none.
abbrev pub state_from :
    Options → List PlanQuotaEvidence → List PlanQuotaEvidence → Credential → QuotaState
state_from o fresh historical c =
    if c.disabled && o.ignore_disabled_host
    then quota_unknown
    else state_by o.now (
        first_evidence (lookup c.auth_index (quota_evidence_by_auth_index fresh))
          (lookup c.auth_index (quota_evidence_by_auth_index historical)))

abbrev pub Judged : Options → List PlanQuotaEvidence → List PlanQuotaEvidence → PlanItem → Type 0
Judged o fresh historical x = x.quota_state ≡ state_from o fresh historical x.credential

judge_item-state :
    (m : QuotaMetrics) (x : PlanItem)
    → (judge_item m x).quota_state ≡ (
        if m.is_weekly_depleted
        then quota_weekly_depleted
        else if m.is_short_depleted
        then quota_short_depleted
        else quota_healthy)
unfolding judge_item
judge_item-state m x = elim (Bool-cases m.is_weekly_depleted) [
  | inl weekly ↦ rw weekly refl
  | inr more ↦ elim (Bool-cases m.is_short_depleted) [
    | inl short ↦ rw (more, short) refl
    | inr well ↦ rw (more, well) refl
  ]
]

item_with-state :
    (o : Options) (fresh historical : Option PlanQuotaEvidence) (c : Credential)
    → ((item_with o.now fresh historical (current_item c)).quota_state
        ≡ state_by o.now (first_evidence fresh historical))
      × ((item_with o.now fresh historical (current_item c)).credential ≡ c)
unfolding item_with observe_item current_item
item_with-state o (some q) h c = (
  judge_item-state (extract_quota_metrics q o.now)
      (observed_item (extract_quota_metrics q o.now) true q (current_item c)),
  (observe_item-keeps o.now true q (current_item c)).0,
)
item_with-state o none (some q) c = (
  judge_item-state (extract_quota_metrics q o.now)
      (observed_item (extract_quota_metrics q o.now) false q (current_item c)),
  (observe_item-keeps o.now false q (current_item c)).0,
)
item_with-state o none none c = (refl, refl)

plan_item-Judged :
    (o : Options) (fresh historical : List PlanQuotaEvidence) (c : Credential)
    → Judged o fresh historical (
        plan_item o
          (quota_evidence_by_auth_index fresh)
          (quota_evidence_by_auth_index historical)
          c)
unfolding plan_item
plan_item-Judged o fresh historical c = elim (Bool-cases (c.disabled && o.ignore_disabled_host)) [
  | inl ignored ↦ rw ignored (unfold current_item in rw ignored refl)
  | inr eligible ↦
      let f = lookup c.auth_index (quota_evidence_by_auth_index fresh) in
      let h = lookup c.auth_index (quota_evidence_by_auth_index historical) in
      let (state, account) = item_with-state o f h c in
      rw eligible (
        subst
          (λ d.
            (item_with o.now f h (current_item c)).quota_state ≡ state_from o fresh historical d)
          (sym account) (rw eligible state))
]

-- Every item starts with the state that its evidence gives.
pub plan_items-Judged :
    (o : Options) (cs : List Credential) (fresh historical : List PlanQuotaEvidence)
    → All (Judged o fresh historical) (plan_items cs fresh historical o)
unfolding plan_items
plan_items-Judged o [] fresh historical = tt
plan_items-Judged o (c ∷ cs) fresh historical =
    (plan_item-Judged o fresh historical c, plan_items-Judged o cs fresh historical)
