-- ===== src/Priority/Plan.antt =====
-- internal/priority/planner.go: ranks of the healthy items, and the changes of a plan.
use cpa_antigravity_quota_gu.Prelude.{
  ℕ, zero, suc, Bool, true, false, ◌&&◌, ◌||◌, not, Option, none, some, List, [], ◌∷◌, ◌++◌, ltb,
  if◌then◌else◌, ℤ, pos, negsuc, ltb_ℤ, leb_ℤ, eq_ℤ, ◌-ℤ◌, wrap_int, Text, codes, text_eq, lookup,
}
use cpa_antigravity_quota_gu.Guard.Types.{Time, is_zero, Float64}
use cpa_antigravity_quota_gu.Priority.Floats.{sub_float, negate, less, float_zero}
use cpa_antigravity_quota_gu.Priority.Quota.{PlanQuotaEvidence}
use cpa_antigravity_quota_gu.Priority.Items.{
  Credential, QuotaState, quota_healthy, PlanItem, Options, min_priority, depleted_priority,
  reason_disabled_on_host, reason_fresh_boosted, reason_fresh_remaining_positive,
  reason_429_cooldown, normalize_options, plan_items,
}
use cpa_antigravity_quota_gu.Priority.Order.{
  compare_healthy_candidates, sort_stable, sort_plan_items,
}

pub record Change : Type 0 where
  pub credential : Credential
  pub priority : ℤ
  pub disabled : Bool
  pub evidence_fresh : Bool
  pub reason : Text
  pub is_boosted : Bool

pub record Plan : Type 0 where
  pub decided_at : Time
  pub items : List PlanItem
  pub changes : List Change

abbrev pub is_healthy : QuotaState → Bool
is_healthy quota_healthy = true
is_healthy _ = false

-- An item that takes part in the ranking.
abbrev pub is_active : PlanItem → Bool
is_active x = not x.disabled && x.has_quota_evidence && is_healthy x.quota_state

abbrev pub in_time : Time → Option Time → Bool
in_time now none = false
in_time now (some until) = ltb now until

-- The cooldown of the item's account runs.
unfoldable pub in_cooldown : Options → PlanItem → Bool
unfolding lookup
in_cooldown o x = in_time o.now (lookup x.credential.auth_index o.cooldown_auth_indexes)

abbrev pub cooled : PlanItem → PlanItem
cooled x = record x { priority = depleted_priority; disabled = false; reason = reason_429_cooldown }

-- The first loop of `planPositive`: an item in cooldown is written.
unfoldable pub cool_items : Options → List PlanItem → List PlanItem
unfolding in_cooldown
cool_items o [] = []
cool_items o (x ∷ xs) = (if is_active x && in_cooldown o x then cooled x else x) ∷ cool_items o xs

-- The indexes that it collects, each with its item, for a tier: boosted or not.
unfoldable pub tier : Options → Bool → ℕ → List PlanItem → List (ℕ × PlanItem)
unfolding in_cooldown
tier o boosted n [] = []
tier o boosted n (x ∷ xs) =
    let rest = tier o boosted (suc n) xs in
    if is_active x && not (in_cooldown o x) && (if boosted then x.is_boosted else not x.is_boosted)
    then (n, x) ∷ rest
    else rest

-- `diff := anchor - urgency; if diff < 0 { diff = -diff }`
unfoldable pub distance : Float64 → Float64 → Float64
unfolding sub_float less negate
distance anchor urgency =
    let diff = sub_float anchor urgency in if less diff float_zero then negate diff else diff

-- `currentPriority--`, not below the least.
abbrev pub lower : ℤ → ℤ
lower p = let p' = p -ℤ pos 1 in if ltb_ℤ p' min_priority then min_priority else p'

-- The loop over a sorted tier after its first element.
unfoldable pub cluster : Float64 → ℤ → Float64 → List (ℕ × PlanItem) → List (ℕ × ℤ)
unfolding distance less
cluster tolerance current anchor [] = []
cluster tolerance current anchor ((n, x) ∷ xs) =
    let next = less tolerance (distance anchor x.urgency) in
    let current' = if next then lower current else current in
    let anchor' = if next then x.urgency else anchor in
    (n, current') ∷ cluster tolerance current' anchor' xs

unfoldable pub rank_tier : Float64 → ℤ → List (ℕ × PlanItem) → List (ℕ × ℤ)
unfolding cluster
rank_tier tolerance start [] = []
rank_tier tolerance start ((n, x) ∷ xs) = (n, start) ∷ cluster tolerance start x.urgency xs

abbrev pub ranked : Text → ℤ → PlanItem → PlanItem
ranked reason p x = record x { priority = p; disabled = false; reason = reason }

-- The write of `items[index]`.
unfoldable pub write_rank : Text → ℕ → ℤ → List PlanItem → List PlanItem
write_rank reason n p [] = []
write_rank reason zero p (x ∷ xs) = ranked reason p x ∷ xs
write_rank reason (suc n) p (x ∷ xs) = x ∷ write_rank reason n p xs

unfoldable pub write_ranks : Text → List (ℕ × ℤ) → List PlanItem → List PlanItem
unfolding write_rank
write_ranks reason [] items = items
write_ranks reason ((n, p) ∷ rs) items = write_ranks reason rs (write_rank reason n p items)

abbrev pub compare_indexed : ℕ × PlanItem → ℕ × PlanItem → ℤ
compare_indexed left right = compare_healthy_candidates left.1 right.1

-- The ranks of a tier.
abbrev pub tier_ranks : Options → Bool → ℤ → List PlanItem → List (ℕ × ℤ)
tier_ranks o boosted start items =
    rank_tier o.urgency_tolerance start (sort_stable compare_indexed (tier o boosted 0 items))

-- `planPositive`
unfoldable pub plan_positive : Options → List PlanItem → List PlanItem
unfolding cool_items tier rank_tier write_ranks sort_stable compare_healthy_candidates
plan_positive o items =
    write_ranks reason_fresh_remaining_positive (tier_ranks o false o.normal_start_priority items) (
      write_ranks reason_fresh_boosted (tier_ranks o true o.boost_start_priority items)
        (cool_items o items))

-- `markHistoricalReasons`
abbrev mark_historical : PlanItem → PlanItem
mark_historical x =
    if x.evidence_fresh || not x.has_quota_evidence || text_eq x.reason reason_disabled_on_host
    then x
    else record x { reason = codes "historical: " ++ x.reason }

unfoldable pub mark_historical_reasons : List PlanItem → List PlanItem
unfolding text_eq
mark_historical_reasons [] = []
mark_historical_reasons (x ∷ xs) = mark_historical x ∷ mark_historical_reasons xs

-- `abs` on int.
abbrev abs_int : ℤ → ℤ
abs_int (pos n) = pos n
abs_int (negsuc n) = wrap_int (pos (suc n))

unfoldable pub should_change : PlanItem → Options → Bool
should_change x o =
    let c = x.credential in
    let same_disabled = if x.disabled then c.disabled else not c.disabled in
    let least = if ltb_ℤ o.min_change (pos 0) then pos 0 else o.min_change in
    if not x.evidence_fresh
    then false
    else if c.priority_missing
    then true
    else if eq_ℤ x.priority c.priority && same_disabled
    then false
    else if not same_disabled
    then true
    else if eq_ℤ x.priority depleted_priority && x.disabled
    then not (eq_ℤ c.priority depleted_priority) || not c.disabled
    else leb_ℤ least (abs_int (wrap_int (x.priority -ℤ c.priority)))

abbrev pub change_of : PlanItem → Change
change_of x = record {
  credential = x.credential;
  priority = x.priority;
  disabled = x.disabled;
  evidence_fresh = x.evidence_fresh;
  reason = x.reason;
  is_boosted = x.is_boosted;
}

-- `changes`
unfoldable pub changes_of : Options → List PlanItem → List Change
unfolding should_change
changes_of o [] = []
changes_of o (x ∷ xs) =
    let rest = changes_of o xs in if should_change x o then change_of x ∷ rest else rest

-- `planWithEvidence`
unfoldable pub plan_normalized :
    List Credential → List PlanQuotaEvidence → List PlanQuotaEvidence → Options → Plan
unfolding plan_items plan_positive mark_historical_reasons sort_plan_items changes_of
plan_normalized credentials fresh historical o =
    let items =
      sort_plan_items
        (mark_historical_reasons (plan_positive o (plan_items credentials fresh historical o))) in
    record { decided_at = o.now; items = items; changes = changes_of o items }

-- `EvidenceSource`: what its two methods return.
pub record EvidenceSource : Type 0 where
  pub fresh : List PlanQuotaEvidence
  pub historical : List PlanQuotaEvidence

abbrev no_evidence : EvidenceSource
no_evidence = record { fresh = []; historical = [] }

abbrev pub source_or_none : Option EvidenceSource → EvidenceSource
source_or_none none = no_evidence
source_or_none (some s) = s

-- `PlanWithEvidence`; `none` is the panic for an absent time.
unfoldable pub plan_with_evidence : List Credential → Option EvidenceSource → Options → Option Plan
unfolding plan_normalized normalize_options
plan_with_evidence credentials source options =
    let s = source_or_none source in
    if is_zero options.now
    then none
    else some (plan_normalized credentials s.fresh s.historical (normalize_options options))
