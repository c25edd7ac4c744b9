-- ===== src/Cache/Invariant.antt =====
-- internal/state/store.go: every history of the store is sound, small and numbered without wrapping.
use cpa_antigravity_quota_gu.Prelude.{
  ℕ, suc, ◌+◌, ◌<◌, ◌≡◌, subst, Option, none, some, arith, Text, lookup, AllEntries,
  AllEntries-insert,
}
use cpa_antigravity_quota_gu.Guard.Types.{Error, returns, returns_injective, fails_ne_returns}
use cpa_antigravity_quota_gu.Cache.Records.{
  CacheEntry, ProbeSuccess, ProbeFailure, ProbeSchedule, CacheStore,
}
use cpa_antigravity_quota_gu.Cache.Marks.{
  cache_key, entry_or_zero, success_entry, learn_from, put_entry, mark_probe_success, failure_entry,
  mark_probe_failure, schedule_entry, mark_probe_scheduled,
}
use cpa_antigravity_quota_gu.Cache.Reads.{
  get_active_cooldowns, clear_expired_cooldowns, set_cooldown,
}
use cpa_antigravity_quota_gu.Cache.Steps.{
  CacheStep, succeeded, failed, scheduled, cooling_set, cleared, pruned, schedule_set, dynamic_set,
  snapshot_set, ReachedIn, fresh_store, one_more, Tidy, Tidy-suc, entry_or_zero-Tidy,
  AllEntries-suc, success_entry-Tidy, learn_from-Kept,
}

abbrev pub TidyStore : ℕ → CacheStore → Type 0
TidyStore n s = AllEntries (λ k x. Tidy n x) s.entries

-- A write of an entry whose history is that of another number of steps.
put_entry-TidyStore :
    (n : ℕ) (key : Text) (x : CacheEntry) (s : CacheStore)
    → Tidy (suc n) x
    → TidyStore n s
    → TidyStore (suc n) (put_entry key x s)
put_entry-TidyStore n key x s t h =
    AllEntries-insert (λ k y. Tidy (suc n) y) key x s.entries t (AllEntries-suc n s.entries h)

failure_entry-Tidy :
    (n : ℕ) (p : ProbeFailure) (x : CacheEntry) → Tidy n x → Tidy n (failure_entry p x)
unfolding failure_entry
failure_entry-Tidy n p x h = record { sound = h.sound; low = h.low; small = h.small }

schedule_entry-Tidy :
    (n : ℕ) (p : ProbeSchedule) (x : CacheEntry) → Tidy n x → Tidy n (schedule_entry p x)
unfolding schedule_entry
schedule_entry-Tidy n p x h = record { sound = h.sound; low = h.low; small = h.small }

success-TidyStore :
    (n : ℕ) (ctx : Option Error) (p : ProbeSuccess) (s t : CacheStore)
    → n + 1 < 18446744073709551616
    → TidyStore n s
    → mark_probe_success ctx p s ≡ returns t
    → TidyStore (suc n) t
unfolding mark_probe_success
success-TidyStore n (some e) p s t r h m = absurd (fails_ne_returns m)
success-TidyStore n none p s t r h m =
    let key = cache_key p.auth_index p.model_group in
    let x = entry_or_zero (lookup key s.entries) in
    let l = learn_from p x s.dynamic_config in
    let (sound, low, small) =
      learn_from-Kept p x s.dynamic_config n (entry_or_zero-Tidy n key s.entries h) r in
    subst (TidyStore (suc n)) (returns_injective m) (
      put_entry-TidyStore n key (success_entry p x l) s
        (success_entry-Tidy p x l (suc n) sound low small) h)

failure-TidyStore :
    (n : ℕ) (ctx : Option Error) (p : ProbeFailure) (s t : CacheStore)
    → TidyStore n s
    → mark_probe_failure ctx p s ≡ returns t
    → TidyStore (suc n) t
unfolding mark_probe_failure
failure-TidyStore n (some e) p s t h m = absurd (fails_ne_returns m)
failure-TidyStore n none p s t h m =
    let key = cache_key p.auth_index p.model_group in
    let x = entry_or_zero (lookup key s.entries) in
    subst (TidyStore (suc n)) (returns_injective m) (
      put_entry-TidyStore n key (failure_entry p x) s
        (Tidy-suc n (failure_entry p x)
          (failure_entry-Tidy n p x (entry_or_zero-Tidy n key s.entries h)))
        h)

schedule-TidyStore :
    (n : ℕ) (ctx : Option Error) (p : ProbeSchedule) (s t : CacheStore)
    → TidyStore n s
    → mark_probe_scheduled ctx p s ≡ returns t
    → TidyStore (suc n) t
unfolding mark_probe_scheduled
schedule-TidyStore n (some e) p s t h m = absurd (fails_ne_returns m)
schedule-TidyStore n none p s t h m =
    let key = cache_key p.auth_index p.model_group in
    let x = entry_or_zero (lookup key s.entries) in
    subst (TidyStore (suc n)) (returns_injective m) (
      put_entry-TidyStore n key (schedule_entry p x) s
        (Tidy-suc n (schedule_entry p x)
          (schedule_entry-Tidy n p x (entry_or_zero-Tidy n key s.entries h)))
        h)

CacheStep-TidyStore :
    (n : ℕ) (s t : CacheStore)
    → n + 1 < 18446744073709551616
    → TidyStore n s
    → CacheStep s t
    → TidyStore (suc n) t
unfolding set_cooldown clear_expired_cooldowns get_active_cooldowns
CacheStep-TidyStore n s t r h (succeeded ctx p _ m) = success-TidyStore n ctx p s t r h m
CacheStep-TidyStore n s t r h (failed ctx p _ m) = failure-TidyStore n ctx p s t h m
CacheStep-TidyStore n s t r h (scheduled ctx p _ m) = schedule-TidyStore n ctx p s t h m
CacheStep-TidyStore n s t r h (cooling_set c) = AllEntries-suc n s.entries h
CacheStep-TidyStore n s t r h (cleared now) = AllEntries-suc n s.entries h
CacheStep-TidyStore n s t r h (pruned now) = AllEntries-suc n s.entries h
CacheStep-TidyStore n s t r h (schedule_set c) = AllEntries-suc n s.entries h
CacheStep-TidyStore n s t r h (dynamic_set c) = AllEntries-suc n s.entries h
CacheStep-TidyStore n s t r h (snapshot_set a b c) = AllEntries-suc n s.entries h

-- After any n operations on an empty store, fewer than 2^64 - 1, every entry has a sound history of
-- at most 30 samples: their sequences grow from a positive one and are at most n, no two neighbours
-- have the same remainders, and the baseline is the sequence of one of them, or 0 without samples.
pub ReachedIn-TidyStore :
    (n : ℕ) (s : CacheStore) → ReachedIn n s → n + 1 < 18446744073709551616 → TidyStore n s
ReachedIn-TidyStore _ _ (fresh_store path) r = tt
ReachedIn-TidyStore _ _ (one_more n s t h step) r =
    CacheStep-TidyStore n s t (omega arith) (ReachedIn-TidyStore n s h (omega arith)) step
