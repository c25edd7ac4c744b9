-- ===== src/Priority/Ranking.antt =====
-- internal/priority/planner.go: every item of a plan has the priority of its kind.
use cpa_antigravity_quota_gu.Prelude.{
  ℕ, suc, ◌≡◌, refl, sym, ◌∙◌, subst, Bool, true, false, ◌&&◌, ◌||◌, not, ◌⊎◌, inl, inr, Option,
  some, some_injective, List, [], ◌∷◌, arith, Bool-cases, Text, text_eq, codes, ◌++◌, All,
  All-get_elem?, get_elem?, if◌then◌else◌,
}
use cpa_antigravity_quota_gu.Guard.Types.{is_zero}
use cpa_antigravity_quota_gu.Priority.Quota.{PlanQuotaEvidence}
use cpa_antigravity_quota_gu.Priority.Items.{
  QuotaState, quota_unknown, quota_healthy, quota_short_depleted, quota_weekly_depleted, Credential,
  PlanItem, Options, normalize_options, reason_disabled_on_host, reason_fresh_boosted,
  reason_fresh_remaining_positive, plan_items,
}
use cpa_antigravity_quota_gu.Priority.Order.{sort_plan_items, compare_plan_items}
use cpa_antigravity_quota_gu.Priority.Sorting.{All-sort_stable}
use cpa_antigravity_quota_gu.Priority.Plan.{
  Plan, is_active, in_cooldown, cooled, cool_items, write_ranks, tier_ranks, plan_positive,
  mark_historical_reasons, plan_normalized, EvidenceSource, source_or_none, plan_with_evidence,
}
use cpa_antigravity_quota_gu.Priority.Members.{Has}
use cpa_antigravity_quota_gu.Priority.Ranks.{InRange, tier_ranks-Fits, tier_ranks-Has}
use cpa_antigravity_quota_gu.Priority.Fitness.{plan_items-Fit}
use cpa_antigravity_quota_gu.Priority.Steady.{plan_normalized-All}
use cpa_antigravity_quota_gu.Priority.Judged.{Judged, plan_items-Judged}
use cpa_antigravity_quota_gu.Priority.Written.{Written, write_ranks-get}
use cpa_antigravity_quota_gu.Priority.Placed.{
  Fit, Placed, PlacedBy, From, ranked-Placed, cooled-Placed, idle-Placed, cool_items-get, cool-From,
}

All-of-get_elem? :
    (P : PlanItem → Type 0) (xs : List PlanItem)
    → ((n : ℕ) (x : PlanItem) → get_elem? xs n ≡ some x → P x)
    → All P xs
All-of-get_elem? P [] h = tt
All-of-get_elem? P (x ∷ xs) h = (h 0 x refl, All-of-get_elem? P xs (λ n y at. h (suc n) y at))

both_true : (a b : Bool) → a ≡ true → b ≡ true → (a && b) ≡ true
both_true a b h k = ground arith

first_false : (a b : Bool) → a ≡ false → (a && b) ≡ false
first_false a b h = ground arith

module _ (items : List PlanItem) (o : Options) (fit : All Fit items)
    (boost : InRange o.boost_start_priority) (normal : InRange o.normal_start_priority) where
  abbrev zs : List PlanItem
  zs = cool_items o items

  abbrev after_boosted : List PlanItem
  after_boosted =
      write_ranks reason_fresh_boosted (tier_ranks o true o.boost_start_priority items) zs

  boosted-cases :
      (n : ℕ) (z : PlanItem)
      → get_elem? after_boosted n ≡ some z
      → Written items o true reason_fresh_boosted zs n z
        ⊎ ((get_elem? zs n ≡ some z)
            × (¬ Has (λ r. r.0 ≡ n) (tier_ranks o true o.boost_start_priority items)))
  boosted-cases n z at =
      write_ranks-get items o true reason_fresh_boosted
        (tier_ranks o true o.boost_start_priority items) zs n z
        (tier_ranks-Fits items o true o.boost_start_priority boost) at

  cooled-From :
      (n : ℕ) (z : PlanItem)
      → get_elem? zs n ≡ some z
      → (x : PlanItem) × (get_elem? items n ≡ some x) × From x z
  cooled-From n z at =
      let (x, was, e) = cool_items-get o items n z at in
      (x, was, subst (From x) (sym e) (cool-From o x))

  boosted-From :
      (n : ℕ) (z : PlanItem)
      → get_elem? after_boosted n ≡ some z
      → (x : PlanItem) × (get_elem? items n ≡ some x) × From x z
  boosted-From n z at = elim (boosted-cases n z at) [
    | inl w ↦
        let (x, was, f) = cooled-From n w.before w.stood in
        (x, was, subst (From x) (sym w.written) (record { state = f.state; account = f.account }))
    | inr (same, _) ↦ cooled-From n z same
  ]

  Written-Placed :
      (b : Bool) (reason : Text) (ws : List PlanItem) (n : ℕ) (y : PlanItem)
      → (w : Written items o b reason ws n y)
      → ((x : PlanItem) × (get_elem? items n ≡ some x) × From x w.before)
      → Placed o y
  Written-Placed b reason ws n y w (x, was, f) =
      let same : x ≡ w.item = some_injective (sym was ∙ w.picked.at) in
      subst (Placed o) (sym w.written) (
        ranked-Placed o w.item w.before w.rank reason (subst (λ i. From i w.before) same f)
          w.picked.active w.picked.warm w.range)

  unranked-Placed :
      (n : ℕ) (x : PlanItem)
      → get_elem? items n ≡ some x
      → ¬ Has (λ r. r.0 ≡ n) (tier_ranks o true o.boost_start_priority items)
      → ¬ Has (λ r. r.0 ≡ n) (tier_ranks o false o.normal_start_priority items)
      → Placed o (if is_active x && in_cooldown o x then cooled x else x)
  unranked-Placed n x at no_boost no_normal = elim (Bool-cases (is_active x)) [
    | inl active ↦ elim (Bool-cases (in_cooldown o x)) [
      | inl cold ↦
          rw (both_true (is_active x) (in_cooldown o x) active cold) (cooled-Placed o x active cold)
      | inr warm ↦ absurd (elim (Bool-cases x.is_boosted) [
        | inl b ↦ no_boost (
            tier_ranks-Has items o true o.boost_start_priority n x
              (record { at = at; active = active; warm = warm; tiered = b }))
        | inr b ↦ no_normal (
            tier_ranks-Has items o false o.normal_start_priority n x
              (record { at = at; active = active; warm = warm; tiered = b }))
      ])
    ]
    | inr idle ↦
        rw (first_false (is_active x) (in_cooldown o x) idle)
          (idle-Placed o x.quota_state x refl (All-get_elem? Fit items n x fit at) idle)
  ]

  plan_positive-Placed : All (Placed o) (plan_positive o items)
  unfolding plan_positive
  plan_positive-Placed =
      All-of-get_elem? (Placed o)
        (write_ranks reason_fresh_remaining_positive
          (tier_ranks o false o.normal_start_priority items) after_boosted)
        at
    where
      at :
          (n : ℕ) (y : PlanItem)
          → get_elem?
              (write_ranks reason_fresh_remaining_positive
                (tier_ranks o false o.normal_start_priority items)
                after_boosted)
              n
            ≡ some y
          → Placed o y
      at n y h =
          elim (write_ranks-get items o false reason_fresh_remaining_positive
            (tier_ranks o false o.normal_start_priority items) after_boosted n y
            (tier_ranks-Fits items o false o.normal_start_priority normal) h) [
              | inl w ↦
                  Written-Placed false reason_fresh_remaining_positive after_boosted n y w
                    (boosted-From n w.before w.stood)
              | inr (stood, no_normal) ↦ elim (boosted-cases n y stood) [
                | inl w ↦
                    Written-Placed true reason_fresh_boosted zs n y w
                      (cooled-From n w.before w.stood)
                | inr (cool, no_boost) ↦
                    let (x, was, e) = cool_items-get o items n y cool in
                    subst (Placed o) (sym e) (unranked-Placed n x was no_boost no_normal)
              ]
            ]

-- The reason of an item does not matter to its place.
renamed-PlacedBy :
    (o : Options) (q : QuotaState) (x : PlanItem) (reason : Text)
    → PlacedBy o q x
    → PlacedBy o q (record x { reason = reason })
renamed-PlacedBy o quota_weekly_depleted x reason h = h
renamed-PlacedBy o quota_short_depleted x reason h = h
renamed-PlacedBy o quota_healthy x reason h = unfold in_cooldown in h
renamed-PlacedBy o quota_unknown x reason h = h

mark_historical_reasons-Placed :
    (o : Options) (xs : List PlanItem)
    → All (Placed o) xs
    → All (Placed o) (mark_historical_reasons xs)
unfolding mark_historical_reasons
mark_historical_reasons-Placed o [] h = tt
mark_historical_reasons-Placed o (x ∷ xs) (h, hs) =
    let rest = mark_historical_reasons-Placed o xs hs in
    elim (Bool-cases
      (x.evidence_fresh || not x.has_quota_evidence || text_eq x.reason reason_disabled_on_host)) [
        | inl same ↦ rw same (h, rest)
        | inr past ↦
            rw past (renamed-PlacedBy o x.quota_state x (codes "historical: " ++ x.reason) h, rest)
      ]

-- The starts that normalizeOptions leaves are in range.
normalize_options-InRange :
    (o : Options)
    → InRange (normalize_options o).boost_start_priority
      × InRange (normalize_options o).normal_start_priority
unfolding normalize_options
normalize_options-InRange o = ground arith

plan_normalized-Placed :
    (cs : List Credential) (fresh historical : List PlanQuotaEvidence) (o : Options)
    → InRange o.boost_start_priority
    → InRange o.normal_start_priority
    → All (Placed o) (plan_normalized cs fresh historical o).items
unfolding plan_normalized sort_plan_items
plan_normalized-Placed cs fresh historical o boost normal =
    let items = plan_items cs fresh historical o in
    All-sort_stable (Placed o) compare_plan_items (mark_historical_reasons (plan_positive o items))
      (mark_historical_reasons-Placed o (plan_positive o items)
        (plan_positive-Placed items o (plan_items-Fit cs fresh historical o) boost normal))

All-both :
    (P Q : PlanItem → Type 0) (xs : List PlanItem) → All P xs → All Q xs → All (λ x. P x × Q x) xs
All-both P Q [] h k = tt
All-both P Q (x ∷ xs) (h, hs) (k, ks) = ((h, k), All-both P Q xs hs ks)

-- In a plan the state of an account is that of its fresh evidence, or of its historical evidence if
-- there is none. One whose weekly quota is used up is disabled at priority -1, one with only the
-- short window used up is enabled at -1, and any other with evidence is enabled, at -1 while its
-- cooldown runs and at a priority from 1 to 999 otherwise. One without evidence, or left out of the
-- planning, keeps the priority that it has on the host, and stays enabled or disabled.
pub plan_with_evidence-Placed :
    (credentials : List Credential) (source : Option EvidenceSource) (options : Options) (p : Plan)
    → plan_with_evidence credentials source options ≡ some p
    → let s = source_or_none source in
      let o = normalize_options options in
      All (λ x. Judged o s.fresh s.historical x × Placed o x) p.items
unfolding plan_with_evidence
plan_with_evidence-Placed credentials source options p h = elim (Bool-cases (is_zero options.now)) [
  | inl absent ↦ cc (rw absent at h)
  | inr given ↦
      let s = source_or_none source in
      let o = normalize_options options in
      let (boost, normal) = normalize_options-InRange options in
      let judged =
        plan_normalized-All o (Judged o s.fresh s.historical) (λ x p disabled reason h. h)
          credentials s.fresh s.historical (plan_items-Judged o credentials s.fresh s.historical) in
      let placed = plan_normalized-Placed credentials s.fresh s.historical o boost normal in
      subst (λ q. All (λ x. Judged o s.fresh s.historical x × Placed o x) q.items)
        (some_injective (rw given at h))
        (All-both (Judged o s.fresh s.historical) (Placed o)
          (plan_normalized credentials s.fresh s.historical o).items judged placed)
]
