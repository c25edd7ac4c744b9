-- ===== src/Cache/Cooldowns.antt =====
-- internal/state/store.go: the cooldowns that are read, and the evidence that is stored.
use cpa_antigravity_quota_gu.Prelude.{
  or_false, ◌≡◌, refl, ap, ◌∙◌, subst, true, false, ◌||◌, not, inl, inr, Option, none, some,
  some_injective, [], ◌∷◌, arith, Bool-cases, ltb, if◌then◌else◌, eq_ℤ, Text, text_eq_iff, is_empty,
  Dict, lookup, Distinct,
}
use cpa_antigravity_quota_gu.Guard.Types.{Time, is_zero}
use cpa_antigravity_quota_gu.Priority.Quota.{PlanQuotaEvidence}
use cpa_antigravity_quota_gu.Evidence.Checks.{valid_quota_evidence}
use cpa_antigravity_quota_gu.Cache.Records.{CacheEntry, CooldownEntry, CacheStore}
use cpa_antigravity_quota_gu.Cache.Marks.{cache_schema_version}
use cpa_antigravity_quota_gu.Cache.Lookups.{get_entry}
use cpa_antigravity_quota_gu.Cache.Reads.{
  historical_of, historical_of_entry, get_historical_evidence, running_cooldowns, cooldown_times,
  get_active_cooldowns, clear_expired_cooldowns,
}

-- The cooldown of an account, if it still runs.
abbrev pub still_running : Time → Option CooldownEntry → Option CooldownEntry
still_running now none = none
still_running now (some c) = if ltb now c.cooldown_until then some c else none

abbrev pub until_of : Option CooldownEntry → Option Time
until_of none = none
until_of (some c) = some c.cooldown_until

running_cooldowns-lookup :
    (now : Time) (key : Text) (m : Dict CooldownEntry)
    → Distinct m
    → lookup key (running_cooldowns now m) ≡ still_running now (lookup key m)
unfolding lookup running_cooldowns
running_cooldowns-lookup now key [] d = refl
running_cooldowns-lookup now key ((k, c) ∷ m) (d, ds) =
    ground (arith, running_cooldowns-lookup now key m ds, text_eq_iff k key, d)

cooldown_times-lookup :
    (now : Time) (key : Text) (m : Dict CooldownEntry)
    → lookup key (cooldown_times now m) ≡ until_of (lookup key (running_cooldowns now m))
unfolding lookup cooldown_times running_cooldowns
cooldown_times-lookup now key [] = refl
cooldown_times-lookup now key ((k, c) ∷ m) = ground (arith, cooldown_times-lookup now key m)

-- Of a store with one cooldown for each account, the active ones are those whose end is still to
-- come, with their ends; these and no others stay in the store, which clearing does as well.
pub get_active_cooldowns-lookup :
    (now : Time) (key : Text) (s : CacheStore)
    → Distinct s.cooldowns
    → let (active, t) = get_active_cooldowns now s in
      (lookup key active ≡ until_of (still_running now (lookup key s.cooldowns)))
      × (lookup key t.cooldowns ≡ still_running now (lookup key s.cooldowns))
      × (clear_expired_cooldowns now s ≡ t)
unfolding get_active_cooldowns clear_expired_cooldowns
get_active_cooldowns-lookup now key s d =
    let kept = running_cooldowns-lookup now key s.cooldowns d in
    (cooldown_times-lookup now key s.cooldowns ∙ ap (λ o. until_of o) kept, kept, refl)

-- Stored evidence is valid for its own group.
historical_of-valid :
    (x : CacheEntry)
    → is_zero x.observed_at ≡ false
    → is_zero x.reset_at ≡ false
    → is_empty (historical_of x).auth_index ≡ false
    → valid_quota_evidence (historical_of x) (historical_of x).model_group ≡ true
unfolding historical_of valid_quota_evidence
historical_of-valid x a b c = ground (arith, text_eq_iff x.model_group x.model_group)

-- What the cache gives as historical evidence passes the check that Classify makes of a stored
-- observation of the group, if the entry names an account.
pub get_historical_evidence-valid :
    (auth_index model_group : Text) (s : CacheStore) (q : PlanQuotaEvidence)
    → get_historical_evidence auth_index model_group s ≡ some q
    → is_empty q.auth_index ≡ false
    → valid_quota_evidence q q.model_group ≡ true
unfolding get_historical_evidence
get_historical_evidence-valid a g s q h e = go (get_entry a g s) h
  where
    go :
        (o : Option CacheEntry)
        → historical_of_entry o ≡ some q
        → valid_quota_evidence q q.model_group ≡ true
    go none h = cc
    go (some x) h = elim (Bool-cases (not (eq_ℤ x.schema_version cache_schema_version))) [
      | inl v ↦ absurd (cc (rw v at h))
      | inr v ↦ elim (Bool-cases (is_zero x.observed_at || is_zero x.reset_at)) [
        | inl z ↦ absurd (cc (rw (v, z) at h))
        | inr z ↦
            let set = or_false (is_zero x.observed_at) (is_zero x.reset_at) z in
            subst (λ p. is_empty p.auth_index ≡ false → valid_quota_evidence p p.model_group ≡ true)
              (some_injective (rw (v, z) at h)) (historical_of-valid x set.0 set.1) e
      ]
    ]
