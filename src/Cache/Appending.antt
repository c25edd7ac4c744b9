-- ===== src/Cache/Appending.antt =====
-- internal/state/estimator.go: one more sample keeps a history sound.
use cpa_antigravity_quota_gu.Prelude.{
  ℕ, ◌≤◌, ◌<◌, ◌≡◌, refl, sym, subst, ◌⊎◌, Bool, true, false, inl, inr, none, some, List, [], ◌∷◌,
  ◌++◌, arith, Option-cases, if◌then◌else◌, length, All-append,
}
use cpa_antigravity_quota_gu.Guard.Types.{Float64}
use cpa_antigravity_quota_gu.Cache.Normalize.{
  QuotaSample, History, sample_by_sequence, same_quota, refresh,
}
use cpa_antigravity_quota_gu.Cache.Samples.{
  Learned, last_sample, change_last, keep_last, base_sample, is_too_little, smoothed_rate, learned,
  learn, is_new_span, append_sample,
}
use cpa_antigravity_quota_gu.Cache.Normal.{has_sequence, Sound, Below}
use cpa_antigravity_quota_gu.Cache.Histories.{sample_by_sequence-has}
use cpa_antigravity_quota_gu.Cache.Growth.{
  Sound-Normal, Normal-Sound, Normal-append, Window, keep_last-Window, change_last-Sound,
  change_last-length, change_last-Below, refresh-Steady,
}

-- A sound history of no more samples than before, or than the window holds, with sequences up to
-- `top`.
pub record Kept (capacity before top : ℕ) (h : History) : Type 0 where
  pub sound : Sound h.samples h.baseline
  pub bounded : (length h.samples ≤ capacity) ⊎ (length h.samples ≤ before)
  pub low : Below top h.samples

pub base_sample-has :
    (ys : List QuotaSample) (n : ℕ) (x : QuotaSample)
    → has_sequence ys x.sequence ≡ true
    → has_sequence ys (base_sample (sample_by_sequence ys n) ys x).sequence ≡ true
base_sample-has ys n x h = elim (Option-cases (sample_by_sequence ys n)) [
  | inr (y, e) ↦
      let there = sample_by_sequence-has ys n y e in
      rw e (subst (λ k. has_sequence ys k ≡ true) (sym there.1) there.0)
  | inl e ↦ rw e (first ys h)
]
  where
    first :
        (zs : List QuotaSample)
        → has_sequence zs x.sequence ≡ true
        → has_sequence zs (base_sample none zs x).sequence ≡ true
    first [] h = h
    first (z ∷ zs) h = ground arith

pub learned-Kept :
    (too_little : Bool) (rate new : Float64) (capacity before top : ℕ)
    → (ys : List QuotaSample) (base x : QuotaSample) → Window capacity top x ys
    → has_sequence ys base.sequence ≡ true
    → Kept capacity before top (learned too_little rate new ys base x).history
learned-Kept true rate new capacity before top ys base x w h = record {
  sound = Normal-Sound ys base.sequence w.normal w.all_positive h;
  bounded = inl w.bounded;
  low = w.low;
}
learned-Kept false rate new capacity before top ys base x w h = record {
  sound = Normal-Sound ys x.sequence w.normal w.all_positive w.holds;
  bounded = inl w.bounded;
  low = w.low;
}

pub learn-Kept :
    (rate : Float64) (capacity before top n : ℕ) (ys : List QuotaSample) (x : QuotaSample)
    → Window capacity top x ys
    → Kept capacity before top
        (learn rate ys (base_sample (sample_by_sequence ys n) ys x) x).history
unfolding learn
learn-Kept rate capacity before top n ys x w =
    let base = base_sample (sample_by_sequence ys n) ys x in
    learned-Kept (is_too_little base x) rate (smoothed_rate rate base x) capacity before top ys base
      x w (base_sample-has ys n x w.holds)

pub choose-Kept :
    (capacity before top : ℕ) (a b : Bool) (x y z : Learned)
    → (a ≡ true → Kept capacity before top x.history)
    → (a ≡ false → Kept capacity before top y.history)
    → (a ≡ false → Kept capacity before top z.history)
    → Kept capacity before top (if a then x else if b then y else z).history
choose-Kept capacity before top true b x y z h k l = h refl
choose-Kept capacity before top false true x y z h k l = k refl
choose-Kept capacity before top false false x y z h k l = l refl

pub append_sample-Kept :
    (rate : Float64) (capacity top : ℕ) (xs : List QuotaSample) (n : ℕ) (last x : QuotaSample)
    → 0 < capacity
    → Sound xs n
    → last_sample xs ≡ some last
    → last.sequence < x.sequence
    → Below top xs
    → x.sequence ≤ top
    → Kept capacity (length xs) top (append_sample rate capacity xs n last x).history
unfolding append_sample
append_sample-Kept rate capacity top xs n last x c h e lt b le =
    let (normal, positive) = Sound-Normal xs n h in
    let ys = keep_last capacity (xs ++ (x ∷ [])) in
    let base = base_sample (sample_by_sequence ys n) ys x in
    let window : same_quota x last ≡ false → Window capacity top x ys = λ other.
      keep_last-Window capacity top xs x c (Normal-append xs last x e lt other normal)
        (All-append (λ y. 0 < y.sequence) xs (x ∷ []) positive (omega arith, tt))
        (All-append (λ y. y.sequence ≤ top) xs (x ∷ []) b (le, tt)) in
    choose-Kept capacity (length xs) top (same_quota x last) (is_new_span last x)
      (record {
        rate = rate;
        history = record { samples = change_last (λ y. refresh y x) xs; baseline = n };
      })
      (record { rate = rate; history = record { samples = ys; baseline = x.sequence } })
      (learn rate ys base x)
      (λ same. record {
        sound = change_last-Sound (λ y. refresh y x) (refresh-Steady x) xs n h;
        bounded = inr (omega (arith, change_last-length (λ y. refresh y x) (refresh-Steady x) xs));
        low = change_last-Below (λ y. refresh y x) (refresh-Steady x) top xs b;
      })
      (λ other.
        let w = window other in
        record {
          sound = Normal-Sound ys x.sequence w.normal w.all_positive w.holds;
          bounded = inl w.bounded;
          low = w.low;
        })
      (λ other. learn-Kept rate capacity (length xs) top n ys x (window other))
