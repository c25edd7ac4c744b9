-- ===== src/Guard/Cooldown.antt =====
-- internal/guard/observe.go: how long an account cools, and that nothing but time or quota
-- evidence ends a hard breaker early.
pub mod Generic
use cpa_antigravity_quota_gu.Prelude.{
  ℕ, suc, ◌+◌, ◌≤◌, ◌<◌, ◌≡◌, refl, sym, subst, Text, lookup, Bool, true, false, ◌⊎◌, inl, inr,
  Option, none, some, List, [], ◌∷◌, arith, ℤ, pos, negsuc, ◌<ℤ◌, ◌≤ℤ◌, inc_int, max_int64,
  pos_part, Bool-cases,
}
use cpa_antigravity_quota_gu.Guard.Types.{
  Time, add_time, sub_time, State, opened, closed, half_open, Reason, quota_zero, explicit_429,
  generic_429,
}
use cpa_antigravity_quota_gu.Guard.Records.{Config, Entry, UsageObservation, QuotaEvidence}
use cpa_antigravity_quota_gu.Guard.Reset.{Parsers, extract_reset_at, explicit_quota_exhaustion}
use cpa_antigravity_quota_gu.Guard.Observe.{
  hard_open, count_generic, generic_recover_at, observe_generic, explicit_recover_at,
  explicit_reason, observe_explicit, observe_success, observe_entry, normalized_observation,
  observe_usage,
}
use cpa_antigravity_quota_gu.Guard.Breaker.{
  is_hard, is_opened, is_half_open, is_cooling, open_entry, close_entry,
}
use cpa_antigravity_quota_gu.Guard.Evidence.{apply_evidence}
use cpa_antigravity_quota_gu.Guard.Invariant.{IsValidConfig}
use cpa_antigravity_quota_gu.Guard.Engine.{Engine}
use cpa_antigravity_quota_gu.Guard.Edits.{Edit-lookup, observe_usage-Edit}

-- A hard breaker that runs at the time given and recovers no earlier than another time.
pub record HoldsUntil (x : Entry) (at until : Time) : Type 0 where
  pub hard : hard_open x at ≡ true
  pub late : until ≤ x.recover_at

observe_generic-HoldsUntil :
    (c : Config) (at : Time) (reset : Option Time) (x : Entry)
    → hard_open x at ≡ true
    → HoldsUntil (observe_generic c at reset x) at x.recover_at
unfolding observe_generic count_generic
observe_generic-HoldsUntil c at reset x h = ground arith

explicit_recover_at-le :
    (c : Config) (at : Time) (reset : Option Time) (x : Entry)
    → hard_open x at ≡ true
    → x.recover_at ≤ explicit_recover_at c at reset x
unfolding explicit_recover_at
explicit_recover_at-le c at reset x h = ground arith

observe_explicit-HoldsUntil :
    (c : Config) (at : Time) (reset : Option Time) (x : Entry)
    → hard_open x at ≡ true
    → HoldsUntil (observe_explicit c at reset x) at x.recover_at
unfolding observe_explicit open_entry explicit_reason
observe_explicit-HoldsUntil c at reset x h = ground (arith, explicit_recover_at-le c at reset x h)

observe_success-HoldsUntil :
    (o : UsageObservation) (x : Entry)
    → hard_open x o.observed_at ≡ true
    → HoldsUntil (observe_success o x) o.observed_at x.recover_at
unfolding observe_success
observe_success-HoldsUntil o x h = ground arith

-- No usage record, be it a success, a 429 of either kind or another failure, ends or shortens a
-- hard breaker that still runs when it is observed.
pub observe_entry-HoldsUntil :
    (p : Parsers) (c : Config) (o : UsageObservation) (x : Entry)
    → hard_open x o.observed_at ≡ true
    → HoldsUntil (observe_entry p c o x) o.observed_at x.recover_at
unfolding observe_entry
observe_entry-HoldsUntil p c o x h =
    let reset = extract_reset_at p o.headers o.body o.observed_at in
    ground (
      arith,
      observe_success-HoldsUntil o x h,
      observe_explicit-HoldsUntil c o.observed_at reset x h,
      observe_generic-HoldsUntil c o.observed_at reset x h,
    )

-- No usage record ends or shortens a hard breaker: one that runs at the time of the record still
-- stands after it under the same key, is hard and runs, and recovers no earlier than before.
pub observe_usage-HoldsUntil :
    (p : Parsers) (wall : Time) (o : UsageObservation) (e : Engine) (k : Text) (x : Entry)
    → let at = (normalized_observation wall o).observed_at in
      lookup k e.entries ≡ some x
      → hard_open x at ≡ true
      → (y : Entry) × (lookup k (observe_usage p wall o e).0.entries ≡ some y)
        × HoldsUntil y at x.recover_at
observe_usage-HoldsUntil p wall o e k x f h =
    let n = normalized_observation wall o in
    let e' = (observe_usage p wall o e).0 in
    elim (Edit-lookup _ e e' k x (observe_usage-Edit p wall o e).0 f) [
      | inl same ↦ (x, same, record { hard = h; late = omega arith })
      | inr (y, r, there) ↦ (
        y,
        there,
        subst (λ z. HoldsUntil z n.observed_at x.recover_at) (sym r.1)
            (observe_entry-HoldsUntil p e.config n x h),
      )
    ]
