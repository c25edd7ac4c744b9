-- ===== src/Priority/Kept.antt =====
-- internal/priority/planner.go: a plan has one item for each credential.
use mathlib.Core.List.{Perm}
use mathlib.Core.List.Perm
use cpa_antigravity_quota_gu.Prelude.{
  ℕ, zero, suc, ◌≡◌, refl, ap, ◌∙◌, subst, true, false, ◌&&◌, ◌||◌, not, inl, inr, Option, none,
  some, some_injective, List, [], ◌∷◌, map, Bool-cases, ℤ, Text, Dict, lookup, text_eq,
}
use cpa_antigravity_quota_gu.Guard.Types.{is_zero}
use cpa_antigravity_quota_gu.Priority.Quota.{PlanQuotaEvidence}
use cpa_antigravity_quota_gu.Priority.Items.{
  Credential, PlanItem, Options, normalize_options, quota_evidence_by_auth_index, current_item,
  item_with, plan_item, plan_items, reason_disabled_on_host, reason_fresh_boosted,
  reason_fresh_remaining_positive,
}
use cpa_antigravity_quota_gu.Priority.Order.{sort_plan_items, compare_plan_items}
use cpa_antigravity_quota_gu.Priority.Sorting.{Perm-sort_stable}
use cpa_antigravity_quota_gu.Priority.Fresh.{observe_item-keeps}
use cpa_antigravity_quota_gu.Priority.Plan.{
  Plan, cool_items, in_cooldown, is_active, write_rank, write_ranks, tier_ranks, plan_positive,
  mark_historical_reasons, plan_normalized, EvidenceSource, source_or_none, plan_with_evidence,
}

abbrev credential_of : PlanItem → Credential
credential_of x = x.credential

abbrev pub credentials_of : List PlanItem → List Credential
credentials_of xs = map credential_of xs

item_with-credential :
    (o : Options) (fresh historical : Option PlanQuotaEvidence) (x : PlanItem)
    → (item_with o.now fresh historical x).credential ≡ x.credential
unfolding item_with
item_with-credential o (some q) h x = (observe_item-keeps o.now true q x).0
item_with-credential o none (some q) x = (observe_item-keeps o.now false q x).0
item_with-credential o none none x = refl

plan_item-credential :
    (o : Options) (fresh historical : Dict PlanQuotaEvidence) (c : Credential)
    → (plan_item o fresh historical c).credential ≡ c
unfolding plan_item current_item
plan_item-credential o fresh historical c =
    elim (Bool-cases (c.disabled && o.ignore_disabled_host)) [
      | inl ignored ↦ rw ignored refl
      | inr eligible ↦ rw eligible (
          item_with-credential o (lookup c.auth_index fresh) (lookup c.auth_index historical)
            (current_item c))
    ]

plan_items-credentials :
    (cs : List Credential) (fresh historical : List PlanQuotaEvidence) (o : Options)
    → credentials_of (plan_items cs fresh historical o) ≡ cs
unfolding plan_items
plan_items-credentials [] fresh historical o = refl
plan_items-credentials (c ∷ cs) fresh historical o = cc (
  plan_item-credential o (quota_evidence_by_auth_index fresh)
      (quota_evidence_by_auth_index historical) c,
  plan_items-credentials cs fresh historical o,
)

cool_items-credentials :
    (o : Options) (xs : List PlanItem) → credentials_of (cool_items o xs) ≡ credentials_of xs
unfolding cool_items
cool_items-credentials o [] = refl
cool_items-credentials o (x ∷ xs) = elim (Bool-cases (is_active x && in_cooldown o x)) [
  | inl cold ↦ rw cold (ap (λ cs. x.credential ∷ cs) (cool_items-credentials o xs))
  | inr warm ↦ rw warm (ap (λ cs. x.credential ∷ cs) (cool_items-credentials o xs))
]

write_rank-credentials :
    (reason : Text) (n : ℕ) (p : ℤ) (xs : List PlanItem)
    → credentials_of (write_rank reason n p xs) ≡ credentials_of xs
unfolding write_rank
write_rank-credentials reason n p [] = refl
write_rank-credentials reason zero p (x ∷ xs) = refl
write_rank-credentials reason (suc n) p (x ∷ xs) =
    ap (λ cs. x.credential ∷ cs) (write_rank-credentials reason n p xs)

write_ranks-credentials :
    (reason : Text) (rs : List (ℕ × ℤ)) (xs : List PlanItem)
    → credentials_of (write_ranks reason rs xs) ≡ credentials_of xs
unfolding write_ranks
write_ranks-credentials reason [] xs = refl
write_ranks-credentials reason ((n, p) ∷ rs) xs =
    write_ranks-credentials reason rs (write_rank reason n p xs)
    ∙ write_rank-credentials reason n p xs

plan_positive-credentials :
    (o : Options) (xs : List PlanItem) → credentials_of (plan_positive o xs) ≡ credentials_of xs
unfolding plan_positive
plan_positive-credentials o xs =
    let boosted = tier_ranks o true o.boost_start_priority xs in
    let cooled = cool_items o xs in
    write_ranks-credentials reason_fresh_remaining_positive
      (tier_ranks o false o.normal_start_priority xs)
      (write_ranks reason_fresh_boosted boosted cooled)
    ∙ write_ranks-credentials reason_fresh_boosted boosted cooled
    ∙ cool_items-credentials o xs

mark_historical_reasons-credentials :
    (xs : List PlanItem) → credentials_of (mark_historical_reasons xs) ≡ credentials_of xs
unfolding mark_historical_reasons
mark_historical_reasons-credentials [] = refl
mark_historical_reasons-credentials (x ∷ xs) =
    elim (Bool-cases
      (x.evidence_fresh || not x.has_quota_evidence || text_eq x.reason reason_disabled_on_host)) [
        | inl same ↦ rw same (ap (λ cs. x.credential ∷ cs) (mark_historical_reasons-credentials xs))
        | inr past ↦ rw past (ap (λ cs. x.credential ∷ cs) (mark_historical_reasons-credentials xs))
      ]

plan_normalized-credentials :
    (cs : List Credential) (fresh historical : List PlanQuotaEvidence) (o : Options)
    → Perm cs (credentials_of (plan_normalized cs fresh historical o).items)
unfolding plan_normalized sort_plan_items
plan_normalized-credentials cs fresh historical o =
    let items = plan_items cs fresh historical o in
    let marked = mark_historical_reasons (plan_positive o items) in
    let same : credentials_of marked ≡ cs =
      mark_historical_reasons-credentials (plan_positive o items)
      ∙ plan_positive-credentials o items
      ∙ plan_items-credentials cs fresh historical o in
    subst (λ ds. Perm ds (credentials_of (sort_plan_items marked))) same
      (Perm.map credential_of (Perm-sort_stable compare_plan_items marked))

-- A plan has the credentials in some order, each once for each time that it is listed.
pub plan_with_evidence-credentials :
    (credentials : List Credential) (source : Option EvidenceSource) (options : Options) (p : Plan)
    → plan_with_evidence credentials source options ≡ some p
    → Perm credentials (credentials_of p.items)
unfolding plan_with_evidence
plan_with_evidence-credentials credentials source options p h =
    elim (Bool-cases (is_zero options.now)) [
      | inl absent ↦ cc (rw absent at h)
      | inr given ↦
          let s = source_or_none source in
          subst (λ q. Perm credentials (credentials_of q.items)) (some_injective (rw given at h))
            (plan_normalized-credentials credentials s.fresh s.historical
              (normalize_options options))
    ]
