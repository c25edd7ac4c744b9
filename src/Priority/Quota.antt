-- ===== src/Priority/Quota.antt =====
-- internal/priority/urgency.go and boost.go: what the planner computes from quota evidence.
use cpa_antigravity_quota_gu.Prelude.{
  ℕ, ◌*◌, ◌/◌, ◌%◌, Bool, true, false, ◌&&◌, ◌||◌, not, Option, none, some, ltb, if◌then◌else◌, ℤ,
  pos, negsuc, leb_ℤ, Text,
}
use cpa_antigravity_quota_gu.Guard.Types.{Time, Duration, is_zero, minute, sub_time, Float64}
use cpa_antigravity_quota_gu.Priority.Floats.{
  add_float, sub_float, mul_float, div_float, less, less_eq, max_float, min_float, of_int, ratio,
  float_zero,
}

-- `QuotaEvidence` of planner.go; a nil pointer is `none`.
pub record PlanQuotaEvidence : Type 0 where
  pub auth_index : Text
  pub provider : Text
  pub model_group : Text
  pub observed_at : Time
  pub reset_at : Option Time
  pub remaining : Option ℤ
  pub short_window_reset_at : Option Time
  pub short_window_remaining : Option ℤ
  pub long_window_reset_at : Option Time
  pub long_window_remaining : Option ℤ
  pub plan_type : Text
  pub cycle_burn_rate : Float64

pub record QuotaMetrics : Type 0 where
  pub r7d : Float64
  pub t7d : Float64
  pub r5h : Float64
  pub t5h : Float64
  pub cycle_burn_rate : Float64
  pub t_required : Float64
  pub urgency : Float64
  pub is_boosted : Bool
  pub is_weekly_depleted : Bool
  pub is_short_depleted : Bool

-- `d.Hours()`
abbrev hour : ℕ
hour = 60 * minute

unfoldable pub hours : Duration → Float64
unfolding add_float of_int div_float
hours (pos n) =
    add_float (of_int (pos (n / hour))) (div_float (of_int (pos (n % hour))) (of_int (pos hour)))
hours (negsuc n) = float_zero

-- `CalculateUrgency`
unfoldable pub calculate_urgency : Float64 → Float64 → Float64
unfolding less_eq max_float div_float ratio
calculate_urgency r7d t7d =
    let denom = max_float t7d (ratio 1 2) in
    if less_eq r7d float_zero
    then float_zero
    else div_float r7d (if less_eq denom float_zero then ratio 1 2 else denom)

unfoldable pub calculate_weekly_pacing_ratio : Float64 → Float64 → Float64
unfolding calculate_urgency mul_float ratio
calculate_weekly_pacing_ratio r7d t7d = mul_float (calculate_urgency r7d t7d) (ratio 168 1)

abbrev clamp : ℕ → Float64 → Float64
clamp limit x = max_float float_zero (min_float (ratio limit 1) x)

-- `CalculateCompositeScore`
unfoldable pub calculate_composite_score : Float64 → Float64 → Float64 → Float64 → Float64
unfolding calculate_weekly_pacing_ratio add_float sub_float mul_float div_float max_float min_float
    ratio
calculate_composite_score r7d t7d r5h t5h =
    let a5h = sub_float (ratio 1 1) (div_float (clamp 5 t5h) (ratio 5 1)) in
    add_float
      (add_float
        (add_float (mul_float (ratio 4 10) (calculate_weekly_pacing_ratio r7d t7d))
          (mul_float (ratio 3 10) (clamp 1 r7d)))
        (mul_float (ratio 2 10) (clamp 1 r5h)))
      (mul_float (ratio 1 10) a5h)

-- `*p <= 0`, and the fraction of a percentage.
abbrev pub at_most_zero : ℤ → Bool
at_most_zero z = leb_ℤ z (pos 0)

unfoldable pub fraction : ℤ → Float64
unfolding div_float of_int ratio
fraction z = if at_most_zero z then float_zero else div_float (of_int z) (ratio 100 1)

-- The fraction of the first percentage that is there.
abbrev pub first_fraction : Option ℤ → Option ℤ → Float64 → Float64
first_fraction (some z) _ x = fraction z
first_fraction none (some z) x = fraction z
first_fraction none none x = x

unfoldable pub extract_r7d : PlanQuotaEvidence → Float64
unfolding fraction
extract_r7d q = first_fraction q.long_window_remaining q.remaining float_zero

unfoldable pub extract_r5h : PlanQuotaEvidence → Float64 → Float64
unfolding fraction
extract_r5h q fallback = first_fraction q.short_window_remaining q.remaining fallback

-- The hours until the first reset that is there, if it is to come.
abbrev pub hours_until : Option Time → Time → Float64
hours_until none now = float_zero
hours_until (some t) now =
    if is_zero t || not (ltb now t) then float_zero else hours (sub_time t now)

abbrev pub first_time : Option Time → Option Time → Option Time
first_time (some t) _ = some t
first_time none o = o

unfoldable pub extract_t7d : PlanQuotaEvidence → Time → Float64
unfolding hours sub_time
extract_t7d q now = hours_until (first_time q.long_window_reset_at q.reset_at) now

unfoldable pub extract_t5h : PlanQuotaEvidence → Time → Float64
unfolding hours sub_time
extract_t5h q now = hours_until (first_time q.short_window_reset_at q.reset_at) now

abbrev pub present {ℓ} : {A : Type ℓ} → Option A → Bool
present none = false
present (some _) = true

abbrev pub depleted : Option ℤ → Bool
depleted none = false
depleted (some z) = at_most_zero z

unfoldable pub is_weekly_depleted_evidence : PlanQuotaEvidence → Float64 → Bool
unfolding less_eq
is_weekly_depleted_evidence q r7d =
    depleted q.long_window_remaining
    || (not (present q.long_window_remaining) && depleted q.remaining)
    || (less_eq r7d float_zero && (present q.long_window_remaining || present q.remaining))

unfoldable pub is_short_depleted_evidence : PlanQuotaEvidence → Float64 → Bool
unfolding less_eq
is_short_depleted_evidence q r5h =
    depleted q.short_window_remaining
    || (less_eq r5h float_zero && present q.short_window_remaining)

-- `DefaultCycleBurnRate`
unfoldable pub default_cycle_burn_rate : Float64
unfolding ratio
default_cycle_burn_rate = ratio 15 100

unfoldable pub calculate_t_required : Float64 → Float64 → Float64
unfolding less_eq div_float mul_float ratio default_cycle_burn_rate
calculate_t_required r7d rate =
    let rate' = if less_eq rate float_zero then default_cycle_burn_rate else rate in
    if less_eq r7d float_zero then float_zero else mul_float (div_float r7d rate') (ratio 5 1)

unfoldable pub is_boost_eligible : Float64 → Float64 → Float64 → Bool
unfolding less less_eq
is_boost_eligible t7d t_required r7d = less float_zero r7d && less_eq t7d t_required

-- `ExtractQuotaMetrics`
unfoldable pub extract_quota_metrics : PlanQuotaEvidence → Time → QuotaMetrics
unfolding extract_r7d extract_t7d extract_r5h extract_t5h less_eq calculate_t_required
    calculate_composite_score is_weekly_depleted_evidence is_short_depleted_evidence
    is_boost_eligible default_cycle_burn_rate
extract_quota_metrics q now =
    let r7d = extract_r7d q in
    let t7d = extract_t7d q now in
    let r5h = extract_r5h q r7d in
    let t5h = extract_t5h q now in
    let rate =
      if less_eq q.cycle_burn_rate float_zero then default_cycle_burn_rate else q.cycle_burn_rate in
    let t_required = calculate_t_required r7d rate in
    let weekly = is_weekly_depleted_evidence q r7d in
    let short = not weekly && is_short_depleted_evidence q r5h in
    record {
      r7d = r7d;
      t7d = t7d;
      r5h = r5h;
      t5h = t5h;
      cycle_burn_rate = rate;
      t_required = t_required;
      urgency = calculate_composite_score r7d t7d r5h t5h;
      is_boosted = not weekly && not short && is_boost_eligible t7d t_required r7d;
      is_weekly_depleted = weekly;
      is_short_depleted = short;
    }
