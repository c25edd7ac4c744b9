-- ===== src/Cache/Due.antt =====
-- internal/state/store.go: when NeedsProbe asks for a probe.
use cpa_antigravity_quota_gu.Prelude.{
  or_false, ◌≡◌, refl, ap, ◌∙◌, Bool, true, false, ◌&&◌, ◌||◌, not, inl, inr, Option, none, some,
  arith, Bool-cases, ltb, if◌then◌else◌, ℤ, pos, ltb_ℤ, leb_ℤ, eq_ℤ, text_eq, is_empty, trim_space,
}
use cpa_antigravity_quota_gu.Guard.Types.{Time, is_zero, add_time, sub_time, returns}
use cpa_antigravity_quota_gu.Cache.Records.{CacheEntry, ProbeCheck, CacheStore}
use cpa_antigravity_quota_gu.Cache.Marks.{cache_schema_version}
use cpa_antigravity_quota_gu.Cache.Lookups.{get_entry}
use cpa_antigravity_quota_gu.Cache.Reads.{
  is_ttl_expired, is_reset_reached, is_reset_too_old, entry_needs_probe, needs_probe_of,
  needs_probe,
}

-- A time that is not set, or still to come.
abbrev pub ahead : Time → Time → Bool
ahead now t = is_zero t || ltb now t

-- The entry is of this version and of the account that is asked for.
abbrev pub is_same_source : CacheEntry → ProbeCheck → Bool
is_same_source x c =
    eq_ℤ x.schema_version cache_schema_version
    && (is_empty c.provider || text_eq x.provider c.provider)
    && text_eq x.model_group (trim_space c.model_group)

-- Nothing of the entry is due: its resets, the next probe and its age.
abbrev pub is_rested : CacheEntry → ProbeCheck → Bool
is_rested x c =
    ahead c.now x.short_window_reset_at
    && ahead c.now x.reset_at
    && ahead c.now x.next_probe_at
    && (is_zero x.observed_at
        || leb_ℤ c.policy.ttl (pos 0)
        || ltb c.now (add_time x.observed_at c.policy.ttl))

-- A reset that is still to come is not a stale one.
not_stale :
    (now t : Time) (stale : ℤ)
    → (not (is_zero t) && not (ltb now t)) ≡ false
    → leb_ℤ stale (pos 0) ≡ false
    → (not (is_zero t) && ltb_ℤ stale (sub_time now t)) ≡ false
unfolding sub_time
not_stale now t stale h k = ground arith

both_false : (a b : Bool) → a ≡ false → b ≡ false → (a || b) ≡ false
both_false a b h k = ground arith

is_reset_too_old-reached :
    (x : CacheEntry) (c : ProbeCheck)
    → is_reset_reached x c.now ≡ false
    → is_reset_too_old x c ≡ false
unfolding is_reset_reached is_reset_too_old
is_reset_too_old-reached x c h =
    let stale = c.policy.reset_stale_after in
    let (short, long) =
      or_false (not (is_zero x.short_window_reset_at) && not (ltb c.now x.short_window_reset_at))
        (not (is_zero x.reset_at) && not (ltb c.now x.reset_at)) h in
    elim (Bool-cases (leb_ℤ stale (pos 0))) [
      | inl e ↦ ap (λ b. if b then false else is_stale stale) e
      | inr e ↦
          ap (λ b. if b then false else is_stale stale) e
          ∙ both_false
              (not (is_zero x.short_window_reset_at)
                && ltb_ℤ stale (sub_time c.now x.short_window_reset_at))
              (not (is_zero x.reset_at) && ltb_ℤ stale (sub_time c.now x.reset_at))
              (not_stale c.now x.short_window_reset_at stale short e)
              (not_stale c.now x.reset_at stale long e)
    ]
  where
    is_stale : ℤ → Bool
    is_stale stale =
        (not (is_zero x.short_window_reset_at)
          && ltb_ℤ stale (sub_time c.now x.short_window_reset_at))
        || (not (is_zero x.reset_at) && ltb_ℤ stale (sub_time c.now x.reset_at))

-- The chain of conditions, with what each is.
chain :
    (version no_provider provider group reached old expired unset before : Bool)
    → (reached ≡ false → old ≡ false)
    → (if not version
        then true
        else if not no_provider && not provider
        then true
        else if not group
        then true
        else if reached
        then true
        else if old
        then true
        else if expired
        then true
        else if not unset && before
        then false
        else if not unset && not before
        then true
        else false)
      ≡ not (
          (version && (no_provider || provider) && group)
          && (not reached && ((unset || before) && not expired)))
chain version no_provider provider group reached old expired unset before h = ground arith

rested_parts :
    (x : CacheEntry) (c : ProbeCheck)
    → (not (is_reset_reached x c.now) && (ahead c.now x.next_probe_at && not (is_ttl_expired x c)))
      ≡ is_rested x c
unfolding is_reset_reached is_ttl_expired
rested_parts x c = ground arith

entry_needs_probe_iff :
    (x : CacheEntry) (c : ProbeCheck)
    → entry_needs_probe x c ≡ not (is_same_source x c && is_rested x c)
unfolding entry_needs_probe
entry_needs_probe_iff x c =
    chain (eq_ℤ x.schema_version cache_schema_version) (is_empty c.provider)
      (text_eq x.provider c.provider) (text_eq x.model_group (trim_space c.model_group))
      (is_reset_reached x c.now) (is_reset_too_old x c) (is_ttl_expired x c)
      (is_zero x.next_probe_at) (ltb c.now x.next_probe_at) (is_reset_too_old-reached x c)
    ∙ ap (λ b. not (is_same_source x c && b)) (rested_parts x c)

abbrev pub is_due : Option CacheEntry → ProbeCheck → Bool
is_due none c = true
is_due (some x) c = not (is_same_source x c && is_rested x c)

needs_probe_of-is_due : (o : Option CacheEntry) (c : ProbeCheck) → needs_probe_of o c ≡ is_due o c
needs_probe_of-is_due none c = refl
needs_probe_of-is_due (some x) c = entry_needs_probe_iff x c

-- A probe is asked for exactly when there is no entry, when it is of another version, provider or
-- group, or when a reset, the time of the next probe or the end of its age, each if it is set, is
-- not still to come. The age up to which a reset is stale makes no difference.
pub needs_probe-is_due :
    (c : ProbeCheck) (s : CacheStore)
    → needs_probe none c s ≡ returns (is_due (get_entry c.auth_index c.model_group s) c)
unfolding needs_probe
needs_probe-is_due c s =
    ap (λ b. returns b) (needs_probe_of-is_due (get_entry c.auth_index c.model_group s) c)
