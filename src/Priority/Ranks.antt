-- ===== src/Priority/Ranks.antt =====
-- internal/priority/planner.go: which items planPositive ranks, and between which bounds.
use cpa_antigravity_quota_gu.Prelude.{
  ℕ, zero, suc, ◌+◌, ◌≡◌, refl, sym, subst, Bool, true, false, ◌&&◌, not, inl, inr, some,
  some_injective, List, [], ◌∷◌, arith, Bool-cases, ℤ, pos, negsuc, ◌≤ℤ◌, All, get_elem?,
  if◌then◌else◌,
}
use cpa_antigravity_quota_gu.Guard.Types.{Float64}
use cpa_antigravity_quota_gu.Priority.Floats.{less}
use cpa_antigravity_quota_gu.Priority.Items.{PlanItem, Options, min_priority, max_priority}
use cpa_antigravity_quota_gu.Priority.Sorting.{All-sort_stable}
use cpa_antigravity_quota_gu.Priority.Members.{Has, Has-sort_stable}
use cpa_antigravity_quota_gu.Priority.Plan.{
  is_active, in_cooldown, tier, distance, lower, cluster, rank_tier, tier_ranks, compare_indexed,
}

-- The bounds of a rank.
abbrev pub InRange : ℤ → Type 0
InRange p = (min_priority ≤ℤ p) × (p ≤ℤ max_priority)

-- An item at a place that belongs to a tier.
pub record Picked (items : List PlanItem) (o : Options) (boosted : Bool) (n : ℕ) (x : PlanItem)
    : Type 0 where
  pub at : get_elem? items n ≡ some x
  pub active : is_active x ≡ true
  pub warm : in_cooldown o x ≡ false
  pub tiered : x.is_boosted ≡ boosted

lower-InRange : (p : ℤ) → InRange p → InRange (lower p)
lower-InRange (pos n) h = ground arith
lower-InRange (negsuc n) h = ground arith

module _ (items : List PlanItem) (o : Options) (boosted : Bool) where
  abbrev InTier : ℕ × PlanItem → Type 0
  InTier z = Picked items o boosted z.0 z.1

  abbrev pub Fits : ℕ × ℤ → Type 0
  Fits z = ((x : PlanItem) × Picked items o boosted z.0 x) × InRange z.1

  tier-InTier :
      (k : ℕ) (xs : List PlanItem)
      → ((i n : ℕ) (x : PlanItem)
          → n ≡ k + i
          → get_elem? xs i ≡ some x
          → get_elem? items n ≡ some x)
      → All InTier (tier o boosted k xs)
  unfolding tier
  tier-InTier k [] r = tt
  tier-InTier k (x ∷ xs) r =
      let rest = tier-InTier (suc k) xs (λ i n y e at. r (suc i) n y (omega arith) at) in
      elim (Bool-cases (
        is_active x
        && not (in_cooldown o x)
        && (if boosted then x.is_boosted else not x.is_boosted))) [
          | inl picked ↦ rw picked (
            record {
              at = r 0 k x (omega arith) refl;
              active = ground arith;
              warm = ground arith;
              tiered = ground arith;
            },
            rest,
          )
          | inr other ↦ rw other rest
        ]

  the_test :
      (x : PlanItem)
      → is_active x ≡ true
      → in_cooldown o x ≡ false
      → x.is_boosted ≡ boosted
      → (is_active x
          && not (in_cooldown o x)
          && (if boosted then x.is_boosted else not x.is_boosted))
        ≡ true
  the_test x a w t = ground arith

  tier-Has :
      (k : ℕ) (xs : List PlanItem) (i n : ℕ) (x : PlanItem)
      → n ≡ k + i
      → get_elem? xs i ≡ some x
      → is_active x ≡ true
      → in_cooldown o x ≡ false
      → x.is_boosted ≡ boosted
      → Has (λ z. z.0 ≡ n) (tier o boosted k xs)
  unfolding tier
  tier-Has k [] i n x e at a w t = cc
  tier-Has k (y ∷ xs) zero n x e at a w t =
      let same : y ≡ x = some_injective at in
      subst
        (λ y.
          Has (λ z. z.0 ≡ n)
            (if is_active y
                && not (in_cooldown o y)
                && (if boosted then y.is_boosted else not y.is_boosted)
              then (k, y) ∷ tier o boosted (suc k) xs
              else tier o boosted (suc k) xs))
        (sym same) (rw (the_test x a w t) (inl (omega arith)))
  tier-Has k (y ∷ xs) (suc i) n x e at a w t =
      let rest = tier-Has (suc k) xs i n x (omega arith) at a w t in
      elim (Bool-cases (
        is_active y
        && not (in_cooldown o y)
        && (if boosted then y.is_boosted else not y.is_boosted))) [
          | inl picked ↦ rw picked (inr rest)
          | inr other ↦ rw other rest
        ]

  cluster-Fits :
      (tolerance : Float64) (current : ℤ) (anchor : Float64) (xs : List (ℕ × PlanItem))
      → InRange current
      → All InTier xs
      → All Fits (cluster tolerance current anchor xs)
  unfolding cluster
  cluster-Fits tolerance current anchor [] c h = tt
  cluster-Fits tolerance current anchor ((n, x) ∷ xs) c (h, hs) =
      elim (Bool-cases (less tolerance (distance anchor x.urgency))) [
        | inl far ↦
            let c' = lower-InRange current c in
            rw far (((x, h), c'), cluster-Fits tolerance (lower current) x.urgency xs c' hs)
        | inr near ↦ rw near (((x, h), c), cluster-Fits tolerance current anchor xs c hs)
      ]

  cluster-Has :
      (n : ℕ) (tolerance : Float64) (current : ℤ) (anchor : Float64) (xs : List (ℕ × PlanItem))
      → Has (λ z. z.0 ≡ n) xs
      → Has (λ z. z.0 ≡ n) (cluster tolerance current anchor xs)
  unfolding cluster
  cluster-Has n tolerance current anchor [] h = h
  cluster-Has n tolerance current anchor ((m, x) ∷ xs) h =
      let next = less tolerance (distance anchor x.urgency) in
      elim h [
        | inl e ↦ inl e
        | inr k ↦ inr (
            cluster-Has n tolerance (if next then lower current else current)
              (if next then x.urgency else anchor) xs k)
      ]

  -- The ranks of a tier are of its items and in range.
  pub tier_ranks-Fits : (start : ℤ) → InRange start → All Fits (tier_ranks o boosted start items)
  unfolding rank_tier
  tier_ranks-Fits start h = go _ (
      All-sort_stable InTier compare_indexed (tier o boosted 0 items)
        (tier-InTier 0 items (λ i n x e at. place i n x (omega arith) at)))
    where
      place :
          (i n : ℕ) (x : PlanItem) → n ≡ i → get_elem? items i ≡ some x → get_elem? items n ≡ some x
      place i n x e at = subst (λ k. get_elem? items k ≡ some x) (sym e) at

      go :
          (xs : List (ℕ × PlanItem))
          → All InTier xs
          → All Fits (rank_tier o.urgency_tolerance start xs)
      go [] k = tt
      go ((n, x) ∷ xs) (k, ks) =
          (((x, k), h), cluster-Fits o.urgency_tolerance start x.urgency xs h ks)

  -- Each item of a tier has a rank.
  pub tier_ranks-Has :
      (start : ℤ) (n : ℕ) (x : PlanItem)
      → Picked items o boosted n x
      → Has (λ z. z.0 ≡ n) (tier_ranks o boosted start items)
  unfolding rank_tier
  tier_ranks-Has start n x p = go _ (
      Has-sort_stable (λ z. z.0 ≡ n) compare_indexed (tier o boosted 0 items)
        (tier-Has 0 items n n x (omega arith) p.at p.active p.warm p.tiered))
    where
      go :
          (xs : List (ℕ × PlanItem))
          → Has (λ z. z.0 ≡ n) xs
          → Has (λ z. z.0 ≡ n) (rank_tier o.urgency_tolerance start xs)
      go [] h = absurd h
      go ((m, y) ∷ xs) (inl e) = inl e
      go ((m, y) ∷ xs) (inr h) = inr (cluster-Has n o.urgency_tolerance start y.urgency xs h)
