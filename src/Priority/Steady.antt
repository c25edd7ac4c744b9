-- ===== src/Priority/Steady.antt =====
-- internal/priority/planner.go: what the ranking and the sort leave of the items.
use cpa_antigravity_quota_gu.Prelude.{
  ℕ, zero, suc, Bool, true, false, ◌&&◌, ◌||◌, not, inl, inr, List, [], ◌∷◌, Bool-cases, ℤ, Text,
  text_eq, codes, ◌++◌, All,
}
use cpa_antigravity_quota_gu.Priority.Quota.{PlanQuotaEvidence}
use cpa_antigravity_quota_gu.Priority.Items.{
  Credential, PlanItem, Options, plan_items, reason_disabled_on_host, reason_429_cooldown,
  depleted_priority, reason_fresh_boosted, reason_fresh_remaining_positive,
}
use cpa_antigravity_quota_gu.Priority.Order.{sort_plan_items, compare_plan_items}
use cpa_antigravity_quota_gu.Priority.Sorting.{All-sort_stable}
use cpa_antigravity_quota_gu.Priority.Plan.{
  cool_items, in_cooldown, is_active, write_rank, write_ranks, tier_ranks, plan_positive,
  mark_historical_reasons, plan_normalized,
}

-- A property that priority, enabling and reason do not matter to.
module _ (o : Options) (P : PlanItem → Type 0)
    (steady : (x : PlanItem) (p : ℤ) (disabled : Bool) (reason : Text)
      → P x
      → P (record x { priority = p; disabled = disabled; reason = reason })) where
  cool_items-All : (xs : List PlanItem) → All P xs → All P (cool_items o xs)
  unfolding cool_items
  cool_items-All [] h = tt
  cool_items-All (x ∷ xs) (h, hs) = elim (Bool-cases (is_active x && in_cooldown o x)) [
    | inl cold ↦
        rw cold (steady x depleted_priority false reason_429_cooldown h, cool_items-All xs hs)
    | inr warm ↦ rw warm (h, cool_items-All xs hs)
  ]

  write_rank-All :
      (reason : Text) (n : ℕ) (p : ℤ) (xs : List PlanItem)
      → All P xs
      → All P (write_rank reason n p xs)
  unfolding write_rank
  write_rank-All reason n p [] h = tt
  write_rank-All reason zero p (x ∷ xs) (h, hs) = (steady x p false reason h, hs)
  write_rank-All reason (suc n) p (x ∷ xs) (h, hs) = (h, write_rank-All reason n p xs hs)

  write_ranks-All :
      (reason : Text) (rs : List (ℕ × ℤ)) (xs : List PlanItem)
      → All P xs
      → All P (write_ranks reason rs xs)
  unfolding write_ranks
  write_ranks-All reason [] xs h = h
  write_ranks-All reason ((n, p) ∷ rs) xs h =
      write_ranks-All reason rs (write_rank reason n p xs) (write_rank-All reason n p xs h)

  plan_positive-All : (xs : List PlanItem) → All P xs → All P (plan_positive o xs)
  unfolding plan_positive
  plan_positive-All xs h =
      let boosted = tier_ranks o true o.boost_start_priority xs in
      write_ranks-All reason_fresh_remaining_positive
        (tier_ranks o false o.normal_start_priority xs)
        (write_ranks reason_fresh_boosted boosted (cool_items o xs))
        (write_ranks-All reason_fresh_boosted boosted (cool_items o xs) (cool_items-All xs h))

  mark_historical_reasons-All : (xs : List PlanItem) → All P xs → All P (mark_historical_reasons xs)
  unfolding mark_historical_reasons
  mark_historical_reasons-All [] h = tt
  mark_historical_reasons-All (x ∷ xs) (h, hs) =
      elim (Bool-cases (
        x.evidence_fresh || not x.has_quota_evidence || text_eq x.reason reason_disabled_on_host)) [
          | inl same ↦ rw same (h, mark_historical_reasons-All xs hs)
          | inr past ↦ rw past (
            steady x x.priority x.disabled (codes "historical: " ++ x.reason) h,
            mark_historical_reasons-All xs hs,
          )
        ]

  -- Such a property of the items that evidence leaves holds of all items of the plan.
  pub plan_normalized-All :
      (cs : List Credential) (fresh historical : List PlanQuotaEvidence)
      → All P (plan_items cs fresh historical o)
      → All P (plan_normalized cs fresh historical o).items
  unfolding plan_normalized sort_plan_items
  plan_normalized-All cs fresh historical h =
      let items = plan_items cs fresh historical o in
      All-sort_stable P compare_plan_items (mark_historical_reasons (plan_positive o items))
        (mark_historical_reasons-All (plan_positive o items) (plan_positive-All items h))
