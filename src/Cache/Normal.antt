-- ===== src/Cache/Normal.antt =====
-- internal/state/estimator.go: normalized histories of samples.
use cpa_antigravity_quota_gu.Prelude.{
  ℕ, suc, ◌+◌, ◌≤◌, ◌<◌, ◌≡◌, refl, Bool, true, false, ◌||◌, inl, inr, List, [], ◌∷◌, arith,
  Bool-cases, ◌==◌, if◌then◌else◌, length, All,
}
use cpa_antigravity_quota_gu.Cache.Normalize.{
  QuotaSample, resequence, same_quota, refresh, normalize_from,
}

-- Sequences grow, and no two neighbours have the same remainders.
abbrev pub Normal : List QuotaSample → Type 0
Normal [] = Unit
Normal (x ∷ []) = Unit
Normal (x ∷ y ∷ xs) = ((x.sequence < y.sequence) × (same_quota y x ≡ false)) × Normal (y ∷ xs)

-- The sample of a sequence is there.
abbrev pub has_sequence : List QuotaSample → ℕ → Bool
has_sequence [] n = false
has_sequence (x ∷ xs) n = (x.sequence == n) || has_sequence xs n

-- A history as the learning step leaves it.
abbrev pub Sound : List QuotaSample → ℕ → Type 0
Sound [] baseline = baseline ≡ 0
Sound (x ∷ xs) baseline =
    (0 < x.sequence) × (Normal (x ∷ xs) × (has_sequence (x ∷ xs) baseline ≡ true))

-- The list begins with a sample like this one.
abbrev pub Begins : QuotaSample → List QuotaSample → Type 0
Begins x [] = ⊥
Begins x (y ∷ ys) =
    (y.sequence ≡ x.sequence)
    × (y.short_window_rem ≡ x.short_window_rem)
    × (y.long_window_rem ≡ x.long_window_rem)

Normal-cons :
    (x s : QuotaSample) (ys : List QuotaSample)
    → x.sequence < s.sequence
    → same_quota s x ≡ false
    → Begins s ys
    → Normal ys
    → Normal (x ∷ ys)
Normal-cons x s [] h k b n = tt
Normal-cons x s (y ∷ ys) h k b n = ((ground arith, ground (arith, b, k)), n)

-- Sequences that leave room for the samples up to the end of uint64.
abbrev pub Below : ℕ → List QuotaSample → Type 0
Below n xs = All (λ x. x.sequence ≤ n) xs

pub Below-suc : (n : ℕ) (xs : List QuotaSample) → Below n xs → Below (suc n) xs
Below-suc n [] h = tt
Below-suc n (x ∷ xs) (h, hs) = (omega arith, Below-suc n xs hs)

pub Below-more : (m n : ℕ) (xs : List QuotaSample) → m ≤ n → Below m xs → Below n xs
Below-more m n [] h b = tt
Below-more m n (x ∷ xs) h (b, bs) = (omega arith, Below-more m n xs h bs)

pub resequence-bounds :
    (previous n : ℕ) (x : QuotaSample)
    → previous ≤ n
    → x.sequence ≤ n
    → suc n < 18446744073709551616
    → (previous < (resequence previous x).sequence) × ((resequence previous x).sequence ≤ suc n)
resequence-bounds previous n x h k r = ground arith

pub normalize_from-Normal :
    (previous baseline n : ℕ) (last : QuotaSample) (xs : List QuotaSample)
    → last.sequence ≤ previous
    → previous ≤ n
    → Below n xs
    → n + length xs < 18446744073709551616
    → let h = normalize_from previous baseline last xs in Begins last h.samples × Normal h.samples
unfolding normalize_from
normalize_from-Normal previous baseline n last [] a b c d = ((refl, refl, refl), tt)
normalize_from-Normal previous baseline n last (x ∷ xs) a b (c, cs) d =
    let s = resequence previous x in
    let bounds = resequence-bounds previous n x b c (omega arith) in
    elim (Bool-cases (same_quota s last)) [
      | inl same ↦ rw same (
          normalize_from-Normal s.sequence
            (if baseline == s.sequence then last.sequence else baseline) (suc n) (refresh last s) xs
            (omega arith) bounds.1 (Below-suc n xs cs) (omega arith))
      | inr other ↦
          let rest =
            normalize_from-Normal s.sequence baseline (suc n) s xs (omega arith) bounds.1
              (Below-suc n xs cs) (omega arith) in
          rw other (
            (refl, refl, refl),
            Normal-cons last s (normalize_from s.sequence baseline s xs).samples (omega arith) other
                rest.0 rest.1,
          )
    ]
