-- ===== src/Cache/Reads.antt =====
-- internal/state/store.go: what is read of the cache, and the cooldowns.
use cpa_antigravity_quota_gu.Prelude.{
  Bool, true, false, ◌&&◌, ◌||◌, not, Option, none, some, List, [], ◌∷◌, ltb, if◌then◌else◌, pos,
  ltb_ℤ, leb_ℤ, eq_ℤ, Text, text_eq, is_empty, trim_space, Dict, insert,
}
use cpa_antigravity_quota_gu.Guard.Types.{
  Time, Error, Fallible, returns, ◌>>◌, proceed, is_zero, add_time, sub_time,
}
use cpa_antigravity_quota_gu.Priority.Floats.{less_eq}
use cpa_antigravity_quota_gu.Priority.Quota.{PlanQuotaEvidence, default_cycle_burn_rate}
use cpa_antigravity_quota_gu.Priority.Items.{Credential}
use cpa_antigravity_quota_gu.Configuration.Schedule.{ScheduleConfig}
use cpa_antigravity_quota_gu.Configuration.Records.{DynamicConfig}
use cpa_antigravity_quota_gu.Evidence.Checks.{provider_antigravity}
use cpa_antigravity_quota_gu.Cache.Samples.{rate_of}
use cpa_antigravity_quota_gu.Cache.Records.{CacheEntry, ProbeCheck, CooldownEntry, CacheStore}
use cpa_antigravity_quota_gu.Cache.Marks.{cache_schema_version}
use cpa_antigravity_quota_gu.Cache.Lookups.{get_entry}

-- `isTTLExpired`, `isResetReached`, `isResetTooOld`; `now.Before(t)` is `ltb now t`.
unfoldable pub is_ttl_expired : CacheEntry → ProbeCheck → Bool
is_ttl_expired x c =
    not (is_zero x.observed_at)
    && ltb_ℤ (pos 0) c.policy.ttl
    && not (ltb c.now (add_time x.observed_at c.policy.ttl))

unfoldable pub is_reset_reached : CacheEntry → Time → Bool
is_reset_reached x now =
    (not (is_zero x.short_window_reset_at) && not (ltb now x.short_window_reset_at))
    || (not (is_zero x.reset_at) && not (ltb now x.reset_at))

unfoldable pub is_reset_too_old : CacheEntry → ProbeCheck → Bool
unfolding sub_time
is_reset_too_old x c =
    let stale = c.policy.reset_stale_after in
    if leb_ℤ stale (pos 0)
    then false
    else (not (is_zero x.short_window_reset_at)
        && ltb_ℤ stale (sub_time c.now x.short_window_reset_at))
      || (not (is_zero x.reset_at) && ltb_ℤ stale (sub_time c.now x.reset_at))

-- `NeedsProbe`, for an entry that is there.
unfoldable pub entry_needs_probe : CacheEntry → ProbeCheck → Bool
unfolding trim_space text_eq is_reset_reached is_reset_too_old is_ttl_expired
entry_needs_probe x c =
    if not (eq_ℤ x.schema_version cache_schema_version)
    then true
    else if not (is_empty c.provider) && not (text_eq x.provider c.provider)
    then true
    else if not (text_eq x.model_group (trim_space c.model_group))
    then true
    else if is_reset_reached x c.now
    then true
    else if is_reset_too_old x c
    then true
    else if is_ttl_expired x c
    then true
    else if not (is_zero x.next_probe_at) && ltb c.now x.next_probe_at
    then false
    else if not (is_zero x.next_probe_at) && not (ltb c.now x.next_probe_at)
    then true
    else false

abbrev pub needs_probe_of : Option CacheEntry → ProbeCheck → Bool
needs_probe_of none c = true
needs_probe_of (some x) c = entry_needs_probe x c

unfoldable pub needs_probe : Option Error → ProbeCheck → CacheStore → Fallible Bool
unfolding get_entry entry_needs_probe
needs_probe ctx c s = do
  proceed ctx
  returns (needs_probe_of (get_entry c.auth_index c.model_group s) c)

-- `GetHistoricalEvidence`
abbrev pub time_or_none : Time → Option Time
time_or_none t = if is_zero t then none else some t

unfoldable pub historical_of : CacheEntry → PlanQuotaEvidence
unfolding default_cycle_burn_rate less_eq
historical_of x = record {
  auth_index = x.auth_index;
  provider = provider_antigravity;
  model_group = x.model_group;
  observed_at = x.observed_at;
  reset_at = time_or_none x.reset_at;
  remaining = some x.remaining;
  short_window_reset_at = time_or_none x.short_window_reset_at;
  short_window_remaining = x.short_window_remaining;
  long_window_reset_at = time_or_none x.long_window_reset_at;
  long_window_remaining = x.long_window_remaining;
  plan_type = x.plan_type;
  cycle_burn_rate = rate_of x.cycle_burn_rate;
}

abbrev pub historical_of_entry : Option CacheEntry → Option PlanQuotaEvidence
historical_of_entry none = none
historical_of_entry (some x) =
    if not (eq_ℤ x.schema_version cache_schema_version)
    then none
    else if is_zero x.observed_at || is_zero x.reset_at
    then none
    else some (historical_of x)

unfoldable pub get_historical_evidence : Text → Text → CacheStore → Option PlanQuotaEvidence
unfolding get_entry historical_of
get_historical_evidence auth_index model_group s =
    historical_of_entry (get_entry auth_index model_group s)

-- `BuildHistoricalEvidence`
abbrev and_evidence : Option PlanQuotaEvidence → List PlanQuotaEvidence → List PlanQuotaEvidence
and_evidence none qs = qs
and_evidence (some q) qs = q ∷ qs

unfoldable pub build_historical_evidence :
    List Credential → Text → CacheStore → List PlanQuotaEvidence
unfolding get_historical_evidence
build_historical_evidence [] model_group s = []
build_historical_evidence (c ∷ cs) model_group s =
    and_evidence (get_historical_evidence c.auth_index model_group s)
      (build_historical_evidence cs model_group s)

-- `GetActiveCooldowns` and `ClearExpiredCooldowns`: the cooldowns that still run.
unfoldable pub running_cooldowns : Time → Dict CooldownEntry → Dict CooldownEntry
running_cooldowns now [] = []
running_cooldowns now ((k, c) ∷ m) =
    let rest = running_cooldowns now m in if ltb now c.cooldown_until then (k, c) ∷ rest else rest

unfoldable pub cooldown_times : Time → Dict CooldownEntry → Dict Time
unfolding insert
cooldown_times now [] = []
cooldown_times now ((k, c) ∷ m) =
    let rest = cooldown_times now m in
    if ltb now c.cooldown_until then (k, c.cooldown_until) ∷ rest else rest

unfoldable pub get_active_cooldowns : Time → CacheStore → Dict Time × CacheStore
unfolding running_cooldowns cooldown_times
get_active_cooldowns now s =
    (cooldown_times now s.cooldowns, record s { cooldowns = running_cooldowns now s.cooldowns })

unfoldable pub clear_expired_cooldowns : Time → CacheStore → CacheStore
unfolding running_cooldowns
clear_expired_cooldowns now s = record s { cooldowns = running_cooldowns now s.cooldowns }

-- `SetCooldown`
unfoldable pub set_cooldown : CooldownEntry → CacheStore → CacheStore
unfolding insert
set_cooldown c s = record s { cooldowns = insert c.auth_index c s.cooldowns }

-- `GetCooldowns`, `Entries`, and the settings and the snapshot that are kept with the cache.
abbrev pub get_cooldowns : CacheStore → Dict CooldownEntry
get_cooldowns s = s.cooldowns

abbrev pub no_schedule : ScheduleConfig
no_schedule = record { paused = false; window_enabled = false; window_start = []; window_end = [] }

abbrev pub get_schedule_config : CacheStore → ScheduleConfig
get_schedule_config s = elim s.schedule_config [ none ↦ no_schedule | some c ↦ c ]

abbrev pub set_schedule_config : ScheduleConfig → CacheStore → CacheStore
set_schedule_config c s = record s { schedule_config = some c }

abbrev pub get_dynamic_config : CacheStore → Option DynamicConfig
get_dynamic_config s = s.dynamic_config

abbrev pub set_dynamic_config : DynamicConfig → CacheStore → CacheStore
set_dynamic_config c s = record s { dynamic_config = some c }

abbrev pub set_runtime_snapshot : Text → Text → Text → CacheStore → CacheStore
set_runtime_snapshot audit result history s = record s {
  latest_audit = audit;
  latest_result = result;
  run_history = history;
}

abbrev pub get_runtime_snapshot : CacheStore → Text × Text × Text
get_runtime_snapshot s = (s.latest_audit, s.latest_result, s.run_history)
