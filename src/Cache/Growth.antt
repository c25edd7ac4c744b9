-- ===== src/Cache/Growth.antt =====
-- internal/state/estimator.go: a sound history with one more sample.
use cpa_antigravity_quota_gu.Prelude.{
  ℕ, zero, suc, ◌+◌, ◌-◌, ◌≤◌, ◌<◌, ◌≡◌, refl, sym, ap, ◌∙◌, subst, true, false, ◌||◌, inl, inr,
  some, some_injective, List, [], ◌∷◌, ◌++◌, arith, Bool-cases, ltb, ◌==◌, length, length-append,
  All, u64,
}
use cpa_antigravity_quota_gu.Cache.Normalize.{
  QuotaSample, next_sample_sequence, same_quota, refresh,
}
use cpa_antigravity_quota_gu.Cache.Samples.{last_sample, change_last, drop_samples, keep_last}
use cpa_antigravity_quota_gu.Cache.Normal.{Normal, has_sequence, Sound, Below}

abbrev pub Positive : List QuotaSample → Type 0
Positive xs = All (λ x. 0 < x.sequence) xs

Normal-Positive :
    (x : QuotaSample) (xs : List QuotaSample) → 0 < x.sequence → Normal (x ∷ xs) → Positive (x ∷ xs)
Normal-Positive x [] p n = (p, tt)
Normal-Positive x (y ∷ ys) p ((lt, other), n) = (p, Normal-Positive y ys (omega arith) n)

pub Sound-Normal : (xs : List QuotaSample) (n : ℕ) → Sound xs n → Normal xs × Positive xs
Sound-Normal [] n h = (tt, tt)
Sound-Normal (x ∷ xs) n (p, (h, b)) = (h, Normal-Positive x xs p h)

pub Normal-Sound :
    (xs : List QuotaSample) (n : ℕ)
    → Normal xs
    → Positive xs
    → has_sequence xs n ≡ true
    → Sound xs n
Normal-Sound [] n h p b = cc
Normal-Sound (x ∷ xs) n h (p, ps) b = (p, (h, b))

pub Normal-append :
    (xs : List QuotaSample) (last x : QuotaSample)
    → last_sample xs ≡ some last
    → last.sequence < x.sequence
    → same_quota x last ≡ false
    → Normal xs
    → Normal (xs ++ (x ∷ []))
Normal-append [] last x e lt other h = cc
Normal-append (y ∷ []) last x e lt other h =
    let same = some_injective e in
    (
      (
        subst (λ z. z.sequence < x.sequence) (sym same) lt,
        subst (λ z. same_quota x z ≡ false) (sym same) other,
      ),
      tt,
    )
Normal-append (y ∷ z ∷ zs) last x e lt other (h, hs) =
    (h, Normal-append (z ∷ zs) last x e lt other hs)

Normal-drop : (n : ℕ) (xs : List QuotaSample) → Normal xs → Normal (drop_samples n xs)
Normal-drop zero xs h = h
Normal-drop (suc n) [] h = tt
Normal-drop (suc n) (x ∷ []) h = Normal-drop n [] tt
Normal-drop (suc n) (x ∷ y ∷ xs) (h, hs) = Normal-drop n (y ∷ xs) hs

module _ (P : QuotaSample → Type 0) where
  All-drop : (n : ℕ) (xs : List QuotaSample) → All P xs → All P (drop_samples n xs)
  All-drop zero xs h = h
  All-drop (suc n) [] h = tt
  All-drop (suc n) (x ∷ xs) (h, hs) = All-drop n xs hs

length-drop : (n : ℕ) (xs : List QuotaSample) → length (drop_samples n xs) ≡ length xs - n
length-drop zero xs = omega arith
length-drop (suc n) [] = omega arith
length-drop (suc n) (x ∷ xs) = omega (arith, length-drop n xs)

has_sequence-append :
    (xs : List QuotaSample) (x : QuotaSample) → has_sequence (xs ++ (x ∷ [])) x.sequence ≡ true
has_sequence-append [] x = ground arith
has_sequence-append (y ∷ ys) x = ground (arith, has_sequence-append ys x)

has_sequence-drop :
    (n : ℕ) (xs : List QuotaSample) (x : QuotaSample)
    → n ≤ length xs
    → has_sequence (drop_samples n (xs ++ (x ∷ []))) x.sequence ≡ true
has_sequence-drop zero xs x h = has_sequence-append xs x
has_sequence-drop (suc n) [] x h = absurd (omega arith)
has_sequence-drop (suc n) (y ∷ ys) x h = has_sequence-drop n ys x (omega arith)

-- The window after one more sample.
pub record Window (capacity top : ℕ) (x : QuotaSample) (ys : List QuotaSample) : Type 0 where
  pub normal : Normal ys
  pub all_positive : Positive ys
  pub holds : has_sequence ys x.sequence ≡ true
  pub bounded : length ys ≤ capacity
  pub low : Below top ys

pub keep_last-Window :
    (capacity top : ℕ) (xs : List QuotaSample) (x : QuotaSample)
    → 0 < capacity
    → Normal (xs ++ (x ∷ []))
    → Positive (xs ++ (x ∷ []))
    → Below top (xs ++ (x ∷ []))
    → Window capacity top x (keep_last capacity (xs ++ (x ∷ [])))
keep_last-Window capacity top xs x c h p b =
    let ys = xs ++ (x ∷ []) in
    let more = length-append xs (x ∷ []) in
    elim (Bool-cases (ltb capacity (length ys))) [
      | inl full ↦ rw full (record {
        normal = Normal-drop (length ys - capacity) ys h;
        all_positive = All-drop (λ y. 0 < y.sequence) (length ys - capacity) ys p;
        low = All-drop (λ y. y.sequence ≤ top) (length ys - capacity) ys b;
        holds = has_sequence-drop (length ys - capacity) xs x (omega arith);
        bounded = ground (arith, length-drop (length ys - capacity) ys);
      })
      | inr free ↦ rw free (record {
        normal = h;
        all_positive = p;
        low = b;
        holds = has_sequence-append xs x;
        bounded = ground arith;
      })
    ]

-- A change of the last sample that keeps its sequence and its remainders.
abbrev pub Steady : (QuotaSample → QuotaSample) → Type 0
Steady f =
    (y : QuotaSample)
    → ((f y).sequence ≡ y.sequence)
      × ((f y).short_window_rem ≡ y.short_window_rem)
      × ((f y).long_window_rem ≡ y.long_window_rem)

module _ (f : QuotaSample → QuotaSample) (steady : Steady f) where
  Normal-change : (xs : List QuotaSample) → Normal xs → Normal (change_last f xs)
  Normal-change [] h = tt
  Normal-change (y ∷ []) h = tt
  Normal-change (y ∷ z ∷ []) h = (ground (arith, steady z, h.0), tt)
  Normal-change (y ∷ z ∷ w ∷ ws) (h, hs) = (h, Normal-change (z ∷ w ∷ ws) hs)

  has_sequence-change :
      (xs : List QuotaSample) (n : ℕ) → has_sequence (change_last f xs) n ≡ has_sequence xs n
  has_sequence-change [] n = refl
  has_sequence-change (y ∷ []) n = ap (λ k. (k == n) || false) (steady y).0
  has_sequence-change (y ∷ z ∷ zs) n =
      ap (λ b. (y.sequence == n) || b) (has_sequence-change (z ∷ zs) n)

  pub change_last-Sound : (xs : List QuotaSample) (n : ℕ) → Sound xs n → Sound (change_last f xs) n
  change_last-Sound [] n h = h
  change_last-Sound (y ∷ []) n (p, (h, b)) =
      (omega (arith, steady y), (tt, has_sequence-change (y ∷ []) n ∙ b))
  change_last-Sound (y ∷ z ∷ zs) n (p, (h, b)) =
      (p, (Normal-change (y ∷ z ∷ zs) h, has_sequence-change (y ∷ z ∷ zs) n ∙ b))

  pub change_last-length : (xs : List QuotaSample) → length (change_last f xs) ≡ length xs
  change_last-length [] = refl
  change_last-length (y ∷ []) = refl
  change_last-length (y ∷ z ∷ zs) = omega (arith, change_last-length (z ∷ zs))

  pub change_last-Below : (n : ℕ) (xs : List QuotaSample) → Below n xs → Below n (change_last f xs)
  change_last-Below n [] h = tt
  change_last-Below n (y ∷ []) (h, hs) = (omega (arith, steady y), tt)
  change_last-Below n (y ∷ z ∷ zs) (h, hs) = (h, change_last-Below n (z ∷ zs) hs)

pub refresh-Steady : (x : QuotaSample) → Steady (λ y. refresh y x)
refresh-Steady x y = (refl, refl, refl)

pub next_sample_sequence-last :
    (xs : List QuotaSample) (last : QuotaSample)
    → last_sample xs ≡ some last
    → next_sample_sequence xs ≡ u64 (last.sequence + 1)
unfolding next_sample_sequence
next_sample_sequence-last [] last e = cc
next_sample_sequence-last (x ∷ []) last e = ap (λ y. u64 (y.sequence + 1)) (some_injective e)
next_sample_sequence-last (x ∷ y ∷ ys) last e = next_sample_sequence-last (y ∷ ys) last e
