-- ===== src/Runtime/Quota.antt =====
-- internal/runtime/official_guard.go: what the evidence of a round of probes does to the guard.
use cpa_antigravity_quota_gu.Prelude.{
  ℕ, ◌*◌, Bool, true, false, ◌&&◌, ◌||◌, Option, none, some, List, [], ◌∷◌, ltb, if◌then◌else◌, ℤ,
  pos, negsuc, ltb_ℤ, leb_ℤ, Text, codes, trim_space, Dict, lookup,
}
use cpa_antigravity_quota_gu.Guard.Types.{
  Time, Duration, is_zero, Float64, finite, float_one, Fallible, returns, fails,
}
use cpa_antigravity_quota_gu.Guard.Records.{Identity, EvidenceResult}
use cpa_antigravity_quota_gu.Guard.Engine.{Engine}
use cpa_antigravity_quota_gu.Guard.Roster.{seen}
use cpa_antigravity_quota_gu.Guard.Evidence.{apply_quota_evidence, record_quota_probe_error}
use cpa_antigravity_quota_gu.Guard.Status.{ready, is_dirty}
use cpa_antigravity_quota_gu.Priority.Quota.{PlanQuotaEvidence}
use cpa_antigravity_quota_gu.Evidence.Records.{
  Result, Observation, ObservationKind, observation_failed, observation_invalid,
}
use cpa_antigravity_quota_gu.Runtime.Records.{GuardRuntime, group_of}

-- `laterTime`
unfoldable pub later_time : Time → Time → Time
later_time current candidate =
    if is_zero current || ltb current candidate then candidate else current

abbrev pub known_value : Option ℤ → List ℤ → List ℤ
known_value none rest = rest
known_value (some x) rest = x ∷ rest

-- `remainingValues`
unfoldable pub remaining_values : PlanQuotaEvidence → List ℤ
remaining_values item =
    known_value item.remaining
      (known_value item.short_window_remaining (known_value item.long_window_remaining []))

unfoldable pub least_of : ℤ → List ℤ → ℤ
least_of x [] = x
least_of x (y ∷ ys) = least_of (if ltb_ℤ y x then y else x) ys

-- The number between 0 and 100.
abbrev pub percentage : ℤ → ℕ
percentage (negsuc n) = 0
percentage (pos n) = if ltb 100 n then 100 else n

abbrev pub stated_time : Option Time → Time
stated_time none = 0
stated_time (some t) = t

-- The reset of a window that is used up, if it is known.
unfoldable pub window_reset : Option ℤ → Option Time → Time → Time
unfolding later_time
window_reset none reset at = at
window_reset (some r) none at = at
window_reset (some r) (some t) at = if leb_ℤ r (pos 0) then later_time at t else at

abbrev pub quota_of : PlanQuotaEvidence → List ℤ → Option (ℕ × Time)
quota_of item [] = none
quota_of item (x ∷ xs) = some (
  percentage (least_of x xs),
  window_reset item.long_window_remaining item.long_window_reset_at (
      window_reset item.short_window_remaining item.short_window_reset_at
        (stated_time item.reset_at)),
)

-- `normalizedGuardQuota`, before the conversion of the number to float64.
unfoldable pub normalized_guard_quota : PlanQuotaEvidence → Option (ℕ × Time)
unfolding least_of window_reset remaining_values
normalized_guard_quota item = quota_of item (remaining_values item)

-- `float64(n)` of a number from 0 to 100.
abbrev pub float_of : ℕ → Float64
float_of n = finite (pos (n * float_one))

-- The call of ApplyQuotaEvidence, and whether anything changed so far.
abbrev pub take_outcome : Engine → Bool → Fallible (Engine × EvidenceResult) → Engine × Bool
take_outcome e changed (fails _) = (e, changed)
take_outcome e changed (returns (e', outcome)) = (e', changed || outcome.changed)

abbrev pub apply_quota :
    Time → Text → PlanQuotaEvidence → Identity → Option (ℕ × Time) → Engine × Bool → Engine × Bool
apply_quota wall group item identity none (e, changed) = (e, changed)
apply_quota wall group item identity (some (remaining, reset_at)) (e, changed) =
    take_outcome e changed (
      apply_quota_evidence wall
        (record {
          auth_index = item.auth_index;
          auth_id = identity.auth_id;
          identity_fingerprint = identity.identity_fingerprint;
          group = group_of group;
          remaining = float_of remaining;
          reset_at = reset_at;
          observed_at = item.observed_at;
          source = codes "quota_probe";
        })
        e)

abbrev pub apply_known :
    Time → List Text → Text → PlanQuotaEvidence → Option Identity → Engine × Bool → Engine × Bool
apply_known wall ignored group item none (e, changed) =
    if seen (trim_space item.auth_index) ignored
    then (e, changed)
    else (record_quota_probe_error e, changed)
apply_known wall ignored group item (some identity) r =
    apply_quota wall group item identity (normalized_guard_quota item) r

-- The loop over the eligible evidence of a group.
unfoldable pub apply_eligible :
    Time → Dict Identity → List Text → Text → List PlanQuotaEvidence → Engine × Bool → Engine × Bool
unfolding normalized_guard_quota apply_quota_evidence record_quota_probe_error lookup trim_space
    seen
apply_eligible wall probed ignored group [] r = r
apply_eligible wall probed ignored group (item ∷ items) r =
    apply_eligible wall probed ignored group items
      (apply_known wall ignored group item (lookup (trim_space item.auth_index) probed) r)

abbrev pub is_probe_failure : ObservationKind → Bool
is_probe_failure observation_failed = true
is_probe_failure observation_invalid = true
is_probe_failure _ = false

-- The loop over the observations of a group.
unfoldable pub count_failures : List Observation → Engine → Engine
unfolding record_quota_probe_error
count_failures [] e = e
count_failures (o ∷ os) e =
    count_failures os (if is_probe_failure o.kind then record_quota_probe_error e else e)

abbrev pub after_failures : List Observation → Engine × Bool → Engine × Bool
after_failures os (e, changed) = (count_failures os e, changed)

-- The loop over the groups.
unfoldable pub apply_groups :
    Time → Dict Identity → List Text → Dict Result → Engine × Bool → Engine × Bool
unfolding apply_eligible count_failures
apply_groups wall probed ignored [] r = r
apply_groups wall probed ignored ((group, result) ∷ rest) r =
    apply_groups wall probed ignored rest (
      after_failures result.observations
        (apply_eligible wall probed ignored group result.eligible r))

-- `promoteEnforcementReady`
abbrev promote_engine : Time → Time → Duration → Option Engine → GuardRuntime → GuardRuntime
promote_engine wall now max_age none g = g
promote_engine wall now max_age (some e) g =
    if g.inventory_ready && (ready wall now max_age e).ready
    then record g { baseline_ready = true }
    else g

unfoldable pub promote_enforcement_ready : Time → Time → Duration → GuardRuntime → GuardRuntime
unfolding ready
promote_enforcement_ready wall now max_age g = promote_engine wall now max_age g.engine g

-- The engine in its place again, and the signal of `signalPersist`.
abbrev pub with_engine : Bool → Engine → GuardRuntime → GuardRuntime
with_engine signal e g = record g { engine = some e; persist_signal = g.persist_signal || signal }

abbrev after_groups : Engine × Bool → GuardRuntime → GuardRuntime
after_groups (e, changed) g = with_engine (changed || is_dirty e) e g

abbrev pub apply_to_engine :
    Time
    → Time
    → Duration
    → Dict Identity
    → List Text
    → Dict Result
    → Option Engine
    → GuardRuntime
    → GuardRuntime
apply_to_engine wall now max_age probed ignored groups none g = g
apply_to_engine wall now max_age probed ignored groups (some e) g =
    promote_enforcement_ready wall now max_age
      (after_groups (apply_groups wall probed ignored groups (e, false)) g)

-- `applyGuardEvidence`; `max_age` is that of the current configuration.
unfoldable pub apply_guard_evidence :
    Time → Time → Duration → Dict Identity → List Text → Dict Result → GuardRuntime → GuardRuntime
unfolding apply_groups promote_enforcement_ready is_dirty
apply_guard_evidence wall now max_age probed ignored groups g =
    apply_to_engine wall now max_age probed ignored groups g.engine g
