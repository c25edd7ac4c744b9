-- ===== src/Cache/Learning.antt =====
-- internal/state/estimator.go: the history that an update of the burn rate returns.
use cpa_antigravity_quota_gu.Prelude.{
  ℕ, ◌+◌, ◌≤◌, ◌<◌, ◌≡◌, refl, sym, subst, ◌⊎◌, inl, inr, Option, none, some, some_injective, List,
  [], ◌∷◌, arith, Bool-cases, Option-cases, ℤ, length,
}
use cpa_antigravity_quota_gu.Guard.Types.{Time, Float64, is_zero}
use cpa_antigravity_quota_gu.Cache.Normalize.{
  QuotaSample, History, next_sample_sequence, normalize_sample_history,
}
use cpa_antigravity_quota_gu.Cache.Samples.{
  last_sample, add_sample, new_sample, capacity_of, rate_of, update_with, update_samples,
}
use cpa_antigravity_quota_gu.Cache.Normal.{Sound, Below, Below-more}
use cpa_antigravity_quota_gu.Cache.Histories.{
  normalize_sample_history-Sound, normalize_sample_history-bounds, normalize_sample_history-fixed,
}
use cpa_antigravity_quota_gu.Cache.Growth.{next_sample_sequence-last}
use cpa_antigravity_quota_gu.Cache.Appending.{Kept, append_sample-Kept}

last_sample-Below :
    (n : ℕ) (xs : List QuotaSample) (last : QuotaSample)
    → Below n xs
    → last_sample xs ≡ some last
    → last.sequence ≤ n
last_sample-Below n [] last b e = cc
last_sample-Below n (x ∷ []) last (b, bs) e = subst (λ y. y.sequence ≤ n) (some_injective e) b
last_sample-Below n (x ∷ y ∷ ys) last (b, bs) e = last_sample-Below n (y ∷ ys) last bs e

next_sample_sequence-none :
    (xs : List QuotaSample) → last_sample xs ≡ none → next_sample_sequence xs ≡ 1
unfolding next_sample_sequence
next_sample_sequence-none [] e = refl
next_sample_sequence-none (x ∷ []) e = cc
next_sample_sequence-none (x ∷ y ∷ ys) e = next_sample_sequence-none (y ∷ ys) e

add_sample-Kept :
    (rate : Float64) (capacity n : ℕ) (h : History) (at reset : Time) (short long : ℤ)
    → 0 < capacity
    → Sound h.samples h.baseline
    → Below n h.samples
    → n + 1 < 18446744073709551616
    → Kept capacity
        (length h.samples)
        (n + 1)
        (add_sample rate capacity h
          (last_sample h.samples)
          (new_sample (next_sample_sequence h.samples) at reset short long)).history
unfolding add_sample
add_sample-Kept rate capacity n h at reset short long c s b r =
    elim (Option-cases (last_sample h.samples)) [
      | inl e ↦ rw e (record {
        sound = (ground (arith, next_sample_sequence-none h.samples e), (tt, ground arith));
        bounded = inl (omega arith);
        low = (ground (arith, next_sample_sequence-none h.samples e), tt);
      })
      | inr (last, e) ↦
          let next = next_sample_sequence-last h.samples last e in
          let le = last_sample-Below n h.samples last b e in
          rw e (
            append_sample-Kept rate capacity (n + 1) h.samples h.baseline last
              (new_sample (next_sample_sequence h.samples) at reset short long) c s e
              (omega (arith, next)) (Below-more n (n + 1) h.samples (omega arith) b)
              (omega (arith, next)))
    ]

pub capacity_of-bounds : (n : ℤ) → (2 ≤ capacity_of n) × (capacity_of n ≤ 30)
capacity_of-bounds n = ground arith

Kept-unchanged :
    (capacity n : ℕ) (h : History)
    → Sound h.samples h.baseline
    → Below n h.samples
    → Kept capacity (length h.samples) (n + 1) h
Kept-unchanged capacity n h s b = record {
  sound = s;
  bounded = inr (omega arith);
  low = Below-more n (n + 1) h.samples (omega arith) b;
}

Kept-more :
    (capacity m n top : ℕ) (h : History) → m ≤ n → Kept capacity m top h → Kept capacity n top h
Kept-more capacity m n top h le k = record {
  sound = k.sound;
  bounded = more k.bounded;
  low = k.low;
}
  where
    more :
        (length h.samples ≤ capacity) ⊎ (length h.samples ≤ m)
        → (length h.samples ≤ capacity) ⊎ (length h.samples ≤ n)
    more (inl e) = inl e
    more (inr e) = inr (omega arith)

update_with-Kept :
    (rate : Float64) (capacity n : ℕ) (h : History) (at reset : Time) (short long : Option ℤ)
    → 0 < capacity
    → Sound h.samples h.baseline
    → Below n h.samples
    → n + 1 < 18446744073709551616
    → Kept capacity
        (length h.samples)
        (n + 1)
        (update_with rate capacity h at reset short long).history
update_with-Kept rate capacity n h at reset none long c s b r = Kept-unchanged capacity n h s b
update_with-Kept rate capacity n h at reset (some x) none c s b r = Kept-unchanged capacity n h s b
update_with-Kept rate capacity n h at reset (some x) (some y) c s b r =
    elim (Bool-cases (is_zero reset)) [
      | inl e ↦ rw e (Kept-unchanged capacity n h s b)
      | inr e ↦ rw e (add_sample-Kept rate capacity n h at reset x y c s b r)
    ]

-- An update of a sound history.
pub update_samples-Sound-Kept :
    (rate : Float64) (samples : List QuotaSample) (baseline n : ℕ) (at reset : Time)
    → (short long : Option ℤ) (capacity : ℤ) → Sound samples baseline
    → Below n samples
    → n + 1 < 18446744073709551616
    → Kept
        (capacity_of capacity)
        (length samples)
        (n + 1)
        (update_samples rate samples baseline at reset short long capacity).history
unfolding update_samples
update_samples-Sound-Kept rate samples baseline n at reset short long capacity s b r =
    let least = capacity_of-bounds capacity in
    subst
      (λ h.
        Kept (capacity_of capacity) (length samples) (n + 1)
          (update_with (rate_of rate) (capacity_of capacity) h at reset short long).history)
      (sym (normalize_sample_history-fixed samples baseline s))
      (update_with-Kept (rate_of rate) (capacity_of capacity) n
        (record { samples = samples; baseline = baseline }) at reset short long
        (omega (arith, least)) s b r)

-- However the stored samples are, if their sequences leave room in uint64, an update returns a sound
-- history: the sequences grow from a positive one, no two neighbours have the same remainders, and
-- the baseline is the sequence of one of them, or 0 when there is none. It holds no more samples
-- than before, or no more than the capacity in use, and no sequence has wrapped.
pub update_samples-Kept :
    (rate : Float64) (samples : List QuotaSample) (baseline n : ℕ) (at reset : Time)
    → (short long : Option ℤ) (capacity : ℤ) → Below n samples
    → n + length samples + 1 < 18446744073709551616
    → Kept
        (capacity_of capacity)
        (length samples)
        (n + length samples + 1)
        (update_samples rate samples baseline at reset short long capacity).history
unfolding update_samples
update_samples-Kept rate samples baseline n at reset short long capacity b r =
    let h = normalize_sample_history samples baseline in
    let bounds = normalize_sample_history-bounds samples baseline n b (omega arith) in
    let least = capacity_of-bounds capacity in
    Kept-more (capacity_of capacity) (length h.samples) (length samples) (n + length samples + 1)
      (update_with (rate_of rate) (capacity_of capacity) h at reset short long).history bounds.0
      (update_with-Kept (rate_of rate) (capacity_of capacity) (n + length samples) h at reset short
        long (omega (arith, least))
        (normalize_sample_history-Sound samples baseline n b (omega arith)) bounds.1 r)
