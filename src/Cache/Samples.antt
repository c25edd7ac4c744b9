-- ===== src/Cache/Samples.antt =====
-- internal/state/estimator.go: the history of quota samples and the burn rate learned from it.
use cpa_antigravity_quota_gu.Prelude.{
  ℕ, ◌-◌, Bool, true, false, ◌||◌, not, Option, none, some, List, [], ◌∷◌, ◌++◌, ltb, ◌==◌,
  if◌then◌else◌, ℤ, pos, ltb_ℤ, leb_ℤ, ◌-ℤ◌, wrap_int, pos_part, length,
}
use cpa_antigravity_quota_gu.Guard.Types.{Time, is_zero, Float64}
use cpa_antigravity_quota_gu.Priority.Floats.{
  add_float, mul_float, div_float, less, less_eq, of_int, ratio, float_zero,
}
use cpa_antigravity_quota_gu.Priority.Quota.{default_cycle_burn_rate}
use cpa_antigravity_quota_gu.Cache.Normalize.{
  QuotaSample, History, sample_by_sequence, next_sample_sequence, same_quota, refresh,
  normalize_sample_history,
}

-- The last sample, if there is one.
abbrev pub last_sample : List QuotaSample → Option QuotaSample
last_sample [] = none
last_sample (x ∷ []) = some x
last_sample (x ∷ y ∷ xs) = last_sample (y ∷ xs)

-- The samples with the last one changed.
abbrev pub change_last : (QuotaSample → QuotaSample) → List QuotaSample → List QuotaSample
change_last f [] = []
change_last f (x ∷ []) = f x ∷ []
change_last f (x ∷ y ∷ xs) = x ∷ change_last f (y ∷ xs)

-- The samples without the first n.
abbrev pub drop_samples : ℕ → List QuotaSample → List QuotaSample
drop_samples ℕ.zero xs = xs
drop_samples (ℕ.suc n) [] = []
drop_samples (ℕ.suc n) (x ∷ xs) = drop_samples n xs

-- The last samples, as many as the window holds.
abbrev pub keep_last : ℕ → List QuotaSample → List QuotaSample
keep_last capacity xs =
    if ltb capacity (length xs) then drop_samples (length xs - capacity) xs else xs

-- `clamp`
abbrev pub clamp_rate : Float64 → Float64 → Float64 → Float64
clamp_rate x least most = if less x least then least else if less most x then most else x

-- The fraction of a difference of two percentages.
abbrev pub delta : ℤ → ℤ → Float64
delta before after = div_float (of_int (wrap_int (before -ℤ after))) (ratio 100 1)

-- What `UpdateSamplesAndCycleBurnRate` returns.
pub record Learned : Type 0 where
  pub rate : Float64
  pub history : History

-- Steps 5 to 7: what the samples since the baseline say of the rate.
abbrev pub base_sample : Option QuotaSample → List QuotaSample → QuotaSample → QuotaSample
base_sample (some x) xs current = x
base_sample none [] current = current
base_sample none (x ∷ xs) current = x

-- Too little of the short window was used, or nothing of the week.
unfoldable pub is_too_little : QuotaSample → QuotaSample → Bool
unfolding div_float less less_eq of_int ratio
is_too_little base current =
    less (delta base.short_window_rem current.short_window_rem) (ratio 5 100)
    || less_eq (delta base.long_window_rem current.long_window_rem) float_zero

-- Step 6: the observed rate within its bounds, smoothed.
unfoldable pub smoothed_rate : Float64 → QuotaSample → QuotaSample → Float64
unfolding add_float mul_float div_float less of_int ratio
smoothed_rate rate base current =
    let delta_5h = delta base.short_window_rem current.short_window_rem in
    let delta_7d = delta base.long_window_rem current.long_window_rem in
    let clamped = clamp_rate (div_float delta_7d delta_5h) (ratio 8 100) (ratio 30 100) in
    add_float (mul_float (ratio 3 10) clamped) (mul_float (ratio 7 10) rate)

abbrev pub learned :
    Bool → Float64 → Float64 → List QuotaSample → QuotaSample → QuotaSample → Learned
learned too_little rate new samples base current =
    if too_little
    then record { rate = rate; history = record { samples = samples; baseline = base.sequence } }
    else record { rate = new; history = record { samples = samples; baseline = current.sequence } }

unfoldable pub learn : Float64 → List QuotaSample → QuotaSample → QuotaSample → Learned
unfolding is_too_little smoothed_rate
learn rate samples base current =
    learned (is_too_little base current) rate (smoothed_rate rate base current) samples base current

-- Steps 2 to 4, after the last sample: a reset or a replenishment starts a new span.
abbrev pub is_new_span : QuotaSample → QuotaSample → Bool
is_new_span last current =
    not (current.short_window_reset_at == last.short_window_reset_at)
    || leb_ℤ (pos 5) (wrap_int (current.short_window_rem -ℤ last.short_window_rem))

unfoldable pub append_sample :
    Float64 → ℕ → List QuotaSample → ℕ → QuotaSample → QuotaSample → Learned
unfolding learn sample_by_sequence
append_sample rate capacity samples baseline last current =
    let updated = keep_last capacity (samples ++ (current ∷ [])) in
    let base = base_sample (sample_by_sequence updated baseline) updated current in
    if same_quota current last
    then record {
      rate = rate;
      history = record {
        samples = change_last (λ x. refresh x current) samples;
        baseline = baseline;
      };
    }
    else if is_new_span last current
    then record { rate = rate; history = record { samples = updated; baseline = current.sequence } }
    else learn rate updated base current

-- Step 1: the first sample.
unfoldable pub add_sample : Float64 → ℕ → History → Option QuotaSample → QuotaSample → Learned
unfolding append_sample
add_sample rate capacity h none current = record {
  rate = rate;
  history = record { samples = current ∷ []; baseline = current.sequence };
}
add_sample rate capacity h (some last) current =
    append_sample rate capacity h.samples h.baseline last current

-- An int capacity within its bounds, or the default.
abbrev pub capacity_of : ℤ → ℕ
capacity_of n = if ltb_ℤ n (pos 2) || ltb_ℤ (pos 30) n then 6 else pos_part n

abbrev pub rate_of : Float64 → Float64
rate_of x = if less_eq x float_zero then default_cycle_burn_rate else x

abbrev pub new_sample : ℕ → Time → Time → ℤ → ℤ → QuotaSample
new_sample sequence observed_at reset short long = record {
  sequence = sequence;
  observed_at = observed_at;
  short_window_reset_at = reset;
  short_window_rem = short;
  long_window_rem = long;
  probe_round_id = [];
}

-- `UpdateSamplesAndCycleBurnRate`
abbrev pub update_with : Float64 → ℕ → History → Time → Time → Option ℤ → Option ℤ → Learned
update_with rate capacity h observed_at reset (some short) (some long) =
    if is_zero reset
    then record { rate = rate; history = h }
    else add_sample rate capacity h (last_sample h.samples)
        (new_sample (next_sample_sequence h.samples) observed_at reset short long)
update_with rate capacity h observed_at reset _ _ = record { rate = rate; history = h }

unfoldable pub update_samples :
    Float64 → List QuotaSample → ℕ → Time → Time → Option ℤ → Option ℤ → ℤ → Learned
unfolding less_eq default_cycle_burn_rate normalize_sample_history next_sample_sequence add_sample
update_samples rate samples baseline observed_at reset short long capacity =
    update_with (rate_of rate) (capacity_of capacity) (normalize_sample_history samples baseline)
      observed_at reset short long

-- `sampleAppended`
abbrev appended : Option QuotaSample → Option QuotaSample → Bool
appended _ none = false
appended none (some y) = true
appended (some x) (some y) = ltb x.sequence y.sequence

unfoldable pub sample_appended : List QuotaSample → List QuotaSample → Bool
sample_appended previous current = appended (last_sample previous) (last_sample current)
