-- ===== src/Cache/Histories.antt =====
-- internal/state/estimator.go: normalization gives a sound history, and leaves one as it is.
use cpa_antigravity_quota_gu.Prelude.{
  ℕ, suc, ◌+◌, ◌≤◌, ◌<◌, ◌≡◌, refl, sym, ap, ◌∙◌, true, inl, inr, some, List, [], ◌∷◌, arith,
  Bool-cases, Option-cases, ◌==◌, if◌then◌else◌, length,
}
use cpa_antigravity_quota_gu.Cache.Normalize.{
  QuotaSample, History, sample_by_sequence, resequence, same_quota, refresh, normalize_from,
  normalize_sample_history, settle, found_baseline, first_sequence,
}
use cpa_antigravity_quota_gu.Cache.Normal.{
  Normal, has_sequence, Sound, Begins, Below, Below-suc, Below-more, resequence-bounds,
  normalize_from-Normal,
}

pub sample_by_sequence-has :
    (xs : List QuotaSample) (n : ℕ) (x : QuotaSample)
    → sample_by_sequence xs n ≡ some x
    → (has_sequence xs n ≡ true) × (x.sequence ≡ n)
unfolding sample_by_sequence
sample_by_sequence-has [] n x h = cc
sample_by_sequence-has (y ∷ ys) n x h = elim (Bool-cases (y.sequence == n)) [
  | inl e ↦ (ground arith, ground arith)
  | inr e ↦ let rest = sample_by_sequence-has ys n x (rw e at h) in ground (arith, rest)
]

has-sample_by_sequence :
    (xs : List QuotaSample) (n : ℕ)
    → has_sequence xs n ≡ true
    → (x : QuotaSample) × (sample_by_sequence xs n ≡ some x)
unfolding sample_by_sequence
has-sample_by_sequence [] n h = cc
has-sample_by_sequence (y ∷ ys) n h = elim (Bool-cases (y.sequence == n)) [
  | inl e ↦ (y, rw e refl)
  | inr e ↦ let (x, f) = has-sample_by_sequence ys n (ground arith) in (x, rw e f)
]

-- Settling the baseline makes a normal history sound.
settle-Sound :
    (h : History) (first : QuotaSample)
    → 0 < first.sequence
    → Begins first h.samples
    → Normal h.samples
    → Sound (settle h).samples (settle h).baseline
settle-Sound h first p b n = go h.samples b n
  where
    go :
        (xs : List QuotaSample)
        → Begins first xs
        → Normal xs
        → Sound xs
            (found_baseline (first_sequence xs) (sample_by_sequence xs h.baseline) h.baseline)
    go [] b n = absurd b
    go (x ∷ xs) b n = elim (Option-cases (sample_by_sequence (x ∷ xs) h.baseline)) [
      | inl e ↦ rw e (omega arith, (n, ground arith))
      | inr (y, e) ↦
          let there = sample_by_sequence-has (x ∷ xs) h.baseline y e in
          rw e (omega arith, (n, ground (arith, there)))
    ]

pub normalize_sample_history-Sound :
    (xs : List QuotaSample) (baseline n : ℕ)
    → Below n xs
    → n + length xs < 18446744073709551616
    → let h = normalize_sample_history xs baseline in Sound h.samples h.baseline
unfolding normalize_sample_history
normalize_sample_history-Sound [] baseline n b r = refl
normalize_sample_history-Sound (x ∷ xs) baseline n (b, bs) r =
    let s = resequence 0 x in
    let bounds = resequence-bounds 0 n x (omega arith) b (omega arith) in
    let h = normalize_from s.sequence baseline s xs in
    let (begins, normal) =
      normalize_from-Normal s.sequence baseline (suc n) s xs (omega arith) bounds.1
        (Below-suc n xs bs) (omega arith) in
    settle-Sound h s bounds.0 begins normal

-- A normal history is not changed.
resequence-fixed :
    (previous : ℕ) (x : QuotaSample) → previous < x.sequence → resequence previous x ≡ x
resequence-fixed previous x h = ground arith

normalize_from-fixed :
    (baseline : ℕ) (last : QuotaSample) (xs : List QuotaSample)
    → Normal (last ∷ xs)
    → normalize_from last.sequence baseline last xs
      ≡ record { samples = last ∷ xs; baseline = baseline }
unfolding normalize_from
normalize_from-fixed baseline last [] h = refl
normalize_from-fixed baseline last (x ∷ xs) ((lt, other), h) =
    rw (resequence-fixed last.sequence x lt) (
      rw other (
        ap {A = History} (λ r. record r { samples = last ∷ r.samples })
          (normalize_from-fixed baseline x xs h)))

positive_sequence :
    (n : ℕ) (x : QuotaSample) (xs : List QuotaSample)
    → 0 < x.sequence
    → Normal (x ∷ xs)
    → has_sequence (x ∷ xs) n ≡ true
    → 0 < n
positive_sequence n x [] p h t = ground arith
positive_sequence n x (y ∷ ys) p ((lt, other), h) t = elim (Bool-cases (x.sequence == n)) [
  | inl e ↦ ground arith
  | inr e ↦ positive_sequence n y ys (omega arith) h (rw e at t)
]

kept_baseline :
    (first baseline : ℕ) → 0 < baseline → (if baseline == 0 then first else baseline) ≡ baseline
kept_baseline first baseline h = ground arith

pub normalize_sample_history-fixed :
    (xs : List QuotaSample) (baseline : ℕ)
    → Sound xs baseline
    → normalize_sample_history xs baseline ≡ record { samples = xs; baseline = baseline }
unfolding normalize_sample_history
normalize_sample_history-fixed [] baseline h =
    ap (λ b. record { samples = []; baseline = b }) (sym h)
normalize_sample_history-fixed (x ∷ xs) baseline (p, (n, b)) =
    let (y, found) = has-sample_by_sequence (x ∷ xs) baseline b in
    rw (resequence-fixed 0 x p) (
      ap (λ h. settle h) (normalize_from-fixed baseline x xs n)
      ∙ rw found (
          ap {B = History} (λ m. record { samples = x ∷ xs; baseline = m })
            (kept_baseline x.sequence baseline (positive_sequence baseline x xs p n b))))

-- Normalization adds no sample, and a sequence for each sample at most.
normalize_from-bounds :
    (previous baseline n : ℕ) (last : QuotaSample) (xs : List QuotaSample)
    → last.sequence ≤ previous
    → previous ≤ n
    → Below n xs
    → n + length xs < 18446744073709551616
    → let h = normalize_from previous baseline last xs in
      (length h.samples ≤ suc (length xs)) × Below (n + length xs) h.samples
unfolding normalize_from
normalize_from-bounds previous baseline n last [] a b c d = (omega arith, (omega arith, tt))
normalize_from-bounds previous baseline n last (x ∷ xs) a b (c, cs) d =
    let s = resequence previous x in
    let bounds = resequence-bounds previous n x b c (omega arith) in
    elim (Bool-cases (same_quota s last)) [
      | inl same ↦
          let kept = if baseline == s.sequence then last.sequence else baseline in
          let rest =
            normalize_from-bounds s.sequence kept (suc n) (refresh last s) xs (omega arith) bounds.1
              (Below-suc n xs cs) (omega arith) in
          rw same (
            omega (arith, rest.0),
            Below-more (suc n + length xs) (n + suc (length xs))
                (normalize_from s.sequence kept (refresh last s) xs).samples (omega arith) rest.1,
          )
      | inr other ↦
          let rest =
            normalize_from-bounds s.sequence baseline (suc n) s xs (omega arith) bounds.1
              (Below-suc n xs cs) (omega arith) in
          rw other (
            omega (arith, rest.0),
            (
              omega arith,
              Below-more (suc n + length xs) (n + suc (length xs))
                  (normalize_from s.sequence baseline s xs).samples (omega arith) rest.1,
            ),
          )
    ]

pub normalize_sample_history-bounds :
    (xs : List QuotaSample) (baseline n : ℕ)
    → Below n xs
    → n + length xs < 18446744073709551616
    → let h = normalize_sample_history xs baseline in
      (length h.samples ≤ length xs) × Below (n + length xs) h.samples
unfolding normalize_sample_history
normalize_sample_history-bounds [] baseline n b r = (omega arith, tt)
normalize_sample_history-bounds (x ∷ xs) baseline n (b, bs) r =
    let s = resequence 0 x in
    let bounds = resequence-bounds 0 n x (omega arith) b (omega arith) in
    let rest =
      normalize_from-bounds s.sequence baseline (suc n) s xs (omega arith) bounds.1
        (Below-suc n xs bs) (omega arith) in
    (
      omega (arith, rest.0),
      Below-more (suc n + length xs) (n + suc (length xs))
          (normalize_from s.sequence baseline s xs).samples (omega arith) rest.1,
    )
