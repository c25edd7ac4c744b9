-- ===== src/Cache/Normalize.antt =====
-- internal/state/estimator.go: quota samples, and the normalization of their history.
use cpa_antigravity_quota_gu.Prelude.{
  ℕ, ◌+◌, Bool, ◌&&◌, ◌||◌, Option, none, some, List, [], ◌∷◌, leb, ◌==◌, if◌then◌else◌, ℤ, eq_ℤ,
  u64, Text,
}
use cpa_antigravity_quota_gu.Guard.Types.{Time}

pub record QuotaSample : Type 0 where
  pub sequence : ℕ
  pub observed_at : Time
  pub short_window_reset_at : Time
  pub short_window_rem : ℤ
  pub long_window_rem : ℤ
  pub probe_round_id : Text

-- The samples with the sequence of the one that learning starts from.
pub record History : Type 0 where
  pub samples : List QuotaSample
  pub baseline : ℕ

-- `sampleBySequence`
unfoldable pub sample_by_sequence : List QuotaSample → ℕ → Option QuotaSample
sample_by_sequence [] n = none
sample_by_sequence (x ∷ xs) n = if x.sequence == n then some x else sample_by_sequence xs n

-- `nextSampleSequence`
unfoldable pub next_sample_sequence : List QuotaSample → ℕ
next_sample_sequence [] = 1
next_sample_sequence (x ∷ []) = u64 (x.sequence + 1)
next_sample_sequence (x ∷ y ∷ xs) = next_sample_sequence (y ∷ xs)

-- The new sequence of a sample after another one.
abbrev pub resequence : ℕ → QuotaSample → QuotaSample
resequence previous x =
    if x.sequence == 0 || leb x.sequence previous
    then record x { sequence = u64 (previous + 1) }
    else x

-- Both remainders are the same.
abbrev pub same_quota : QuotaSample → QuotaSample → Bool
same_quota x y =
    eq_ℤ x.short_window_rem y.short_window_rem && eq_ℤ x.long_window_rem y.long_window_rem

-- A sample with the observation of a later one.
abbrev pub refresh : QuotaSample → QuotaSample → QuotaSample
refresh last x = record last {
  observed_at = x.observed_at;
  short_window_reset_at = x.short_window_reset_at;
}

-- The loop of `normalizeSampleHistory` from the second sample on. `last` is the last one that is
-- kept so far, and `previous` the sequence of the last one read.
unfoldable pub normalize_from : ℕ → ℕ → QuotaSample → List QuotaSample → History
normalize_from previous baseline last [] = record { samples = last ∷ []; baseline = baseline }
normalize_from previous baseline last (x ∷ xs) =
    let s = resequence previous x in
    let same = same_quota s last in
    let rest =
      normalize_from s.sequence (if same && baseline == s.sequence then last.sequence else baseline)
        (if same then refresh last s else s) xs in
    if same then rest else record rest { samples = last ∷ rest.samples }

-- The baseline that is the sequence of a sample, or the first one.
abbrev pub found_baseline : ℕ → Option QuotaSample → ℕ → ℕ
found_baseline first none n = first
found_baseline first (some x) n = if n == 0 then first else n

-- `normalizeSampleHistory`
abbrev pub first_sequence : List QuotaSample → ℕ
first_sequence [] = 0
first_sequence (x ∷ xs) = x.sequence

abbrev pub settle : History → History
settle h = record h {
  baseline =
      found_baseline (first_sequence h.samples) (sample_by_sequence h.samples h.baseline)
        h.baseline;
}

unfoldable pub normalize_sample_history : List QuotaSample → ℕ → History
unfolding normalize_from sample_by_sequence
normalize_sample_history [] baseline = record { samples = []; baseline = 0 }
normalize_sample_history (x ∷ xs) baseline =
    let s = resequence 0 x in settle (normalize_from s.sequence baseline s xs)
