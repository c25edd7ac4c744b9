-- ===== src/Cache/Steps.antt =====
-- internal/state/store.go: the operations of the store as steps, and the histories that they keep.
use cpa_antigravity_quota_gu.Prelude.{
  ℕ, suc, ◌+◌, ◌≤◌, ◌<◌, ◌≡◌, refl, Bool, ◌&&◌, not, inl, inr, Option, [], ◌∷◌, arith, Bool-cases,
  Option-cases, length, Text, is_empty, trim_space, Dict, lookup, AllEntries, AllEntries-lookup,
}
use cpa_antigravity_quota_gu.Guard.Types.{Time, Error, returns}
use cpa_antigravity_quota_gu.Configuration.Schedule.{ScheduleConfig}
use cpa_antigravity_quota_gu.Configuration.Records.{DynamicConfig}
use cpa_antigravity_quota_gu.Cache.Normalize.{History}
use cpa_antigravity_quota_gu.Cache.Samples.{Learned, capacity_of, sample_appended}
use cpa_antigravity_quota_gu.Cache.Normal.{Sound, Below, Below-more}
use cpa_antigravity_quota_gu.Cache.Growth.{
  Steady, change_last-Sound, change_last-length, change_last-Below,
}
use cpa_antigravity_quota_gu.Cache.Appending.{Kept}
use cpa_antigravity_quota_gu.Cache.Learning.{capacity_of-bounds, update_samples-Sound-Kept}
use cpa_antigravity_quota_gu.Cache.Records.{
  CacheEntry, no_cache_entry, ProbeSuccess, ProbeFailure, ProbeSchedule, CooldownEntry, CacheStore,
}
use cpa_antigravity_quota_gu.Cache.Marks.{
  entry_or_zero, sample_capacity_of, with_round, mark_round, success_entry, learn_from,
  mark_probe_success, mark_probe_failure, mark_probe_scheduled,
}
use cpa_antigravity_quota_gu.Cache.Reads.{
  get_active_cooldowns, clear_expired_cooldowns, set_cooldown, set_schedule_config,
  set_dynamic_config, set_runtime_snapshot,
}
use cpa_antigravity_quota_gu.Cache.Disk.{empty_store}

-- An operation on the store that changes it.
pub data CacheStep (s : CacheStore) : CacheStore → Type 0 where
  succeeded :
      (ctx : Option Error) (p : ProbeSuccess) (t : CacheStore)
      → mark_probe_success ctx p s ≡ returns t
      → CacheStep s t
  failed :
      (ctx : Option Error) (p : ProbeFailure) (t : CacheStore)
      → mark_probe_failure ctx p s ≡ returns t
      → CacheStep s t
  scheduled :
      (ctx : Option Error) (p : ProbeSchedule) (t : CacheStore)
      → mark_probe_scheduled ctx p s ≡ returns t
      → CacheStep s t
  cooling_set : (c : CooldownEntry) → CacheStep s (set_cooldown c s)
  cleared : (now : Time) → CacheStep s (clear_expired_cooldowns now s)
  pruned : (now : Time) → CacheStep s ((get_active_cooldowns now s).1)
  schedule_set : (c : ScheduleConfig) → CacheStep s (set_schedule_config c s)
  dynamic_set : (c : DynamicConfig) → CacheStep s (set_dynamic_config c s)
  snapshot_set :
      (audit result history : Text) → CacheStep s (set_runtime_snapshot audit result history s)

-- The stores that a number of operations reach from an empty one.
pub data ReachedIn : ℕ → CacheStore → Type 0 where
  fresh_store : (path : Text) → ReachedIn 0 (empty_store path)
  one_more : (n : ℕ) (s t : CacheStore) → ReachedIn n s → CacheStep s t → ReachedIn (suc n) t

-- An entry whose history is sound, small, and numbered up to n.
pub record Tidy (n : ℕ) (x : CacheEntry) : Type 0 where
  pub sound : Sound x.samples x.learning_baseline_sequence
  pub low : Below n x.samples
  pub small : length x.samples ≤ 30

zero_entry-Tidy : (n : ℕ) → Tidy n no_cache_entry
zero_entry-Tidy n = record { sound = refl; low = tt; small = omega arith }

pub Tidy-suc : (n : ℕ) (x : CacheEntry) → Tidy n x → Tidy (suc n) x
Tidy-suc n x h = record {
  sound = h.sound;
  low = Below-more n (suc n) x.samples (omega arith) h.low;
  small = h.small;
}

pub entry_or_zero-Tidy :
    (n : ℕ) (key : Text) (m : Dict CacheEntry)
    → AllEntries (λ k x. Tidy n x) m
    → Tidy n (entry_or_zero (lookup key m))
entry_or_zero-Tidy n key m h = elim (Option-cases (lookup key m)) [
  | inl e ↦ rw e (zero_entry-Tidy n)
  | inr (x, e) ↦ rw e (AllEntries-lookup (λ k y. Tidy n y) key x m h e)
]

pub AllEntries-suc :
    (n : ℕ) (m : Dict CacheEntry)
    → AllEntries (λ k x. Tidy n x) m
    → AllEntries (λ k x. Tidy (suc n) x) m
AllEntries-suc n [] h = tt
AllEntries-suc n ((k, x) ∷ m) (h, hs) = (Tidy-suc n x h, AllEntries-suc n m hs)

with_round-Steady : (round : Text) → Steady (with_round round)
with_round-Steady round y = (refl, refl, refl)

-- Marking the round of the probe changes nothing of this.
mark_round-Tidy :
    (added : Bool) (round : Text) (n : ℕ) (h : History)
    → Sound h.samples h.baseline
    → Below n h.samples
    → length h.samples ≤ 30
    → let xs = mark_round added round h.samples in
      Sound xs h.baseline × Below n xs × (length xs ≤ 30)
mark_round-Tidy added round n h s b l = elim (Bool-cases (added && not (is_empty round))) [
  | inr e ↦ rw e (s, b, l)
  | inl e ↦
      let f = with_round round in
      let steady = with_round-Steady round in
      rw e (
        change_last-Sound f steady h.samples h.baseline s,
        change_last-Below f steady n h.samples b,
        omega (arith, change_last-length f steady h.samples),
      )
]

Kept-small :
    (capacity before top : ℕ) (h : History)
    → capacity ≤ 30
    → before ≤ 30
    → Kept capacity before top h
    → length h.samples ≤ 30
Kept-small capacity before top h c b k = elim k.bounded [
  | inl e ↦ omega arith
  | inr e ↦ omega arith
]

pub success_entry-Tidy :
    (p : ProbeSuccess) (x : CacheEntry) (l : Learned) (n : ℕ)
    → Sound l.history.samples l.history.baseline
    → Below n l.history.samples
    → length l.history.samples ≤ 30
    → Tidy n (success_entry p x l)
unfolding success_entry
success_entry-Tidy p x l n s b k =
    let (sound, low, small) =
      mark_round-Tidy (sample_appended x.samples l.history.samples) (trim_space p.probe_round_id) n
        l.history s b k in
    record { sound = sound; low = low; small = small }

pub learn_from-Kept :
    (p : ProbeSuccess) (x : CacheEntry) (dynamic : Option DynamicConfig) (n : ℕ)
    → Tidy n x
    → n + 1 < 18446744073709551616
    → let h = (learn_from p x dynamic).history in
      Sound h.samples h.baseline × Below (suc n) h.samples × (length h.samples ≤ 30)
unfolding learn_from
learn_from-Kept p x dynamic n t r =
    let capacity = sample_capacity_of p dynamic in
    let k =
      update_samples-Sound-Kept x.cycle_burn_rate x.samples x.learning_baseline_sequence n
        p.observed_at p.short_window_reset_at p.short_window_remaining p.long_window_remaining
        capacity t.sound t.low r in
    (
      k.sound,
      Below-more (n + 1) (suc n) (learn_from p x dynamic).history.samples (omega arith) k.low,
      Kept-small (capacity_of capacity) (length x.samples) (n + 1) (learn_from p x dynamic).history
          (capacity_of-bounds capacity).1 t.small k,
    )
