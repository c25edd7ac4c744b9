-- ===== src/Guard/Selection/Retry.antt =====
-- internal/guard/pick.go: the Retry-After of a blocked request.
use cpa_antigravity_quota_gu.Prelude.{
  ℕ, ◌+◌, ◌-◌, ◌*◌, ◌/◌, ◌≤◌, ◌<◌, ◌≡◌, refl, arith, pos, max_int64, ◌<ℤ◌, min,
}
use cpa_antigravity_quota_gu.Guard.Types.{Time, second, sub_time}
use cpa_antigravity_quota_gu.Guard.Pick.{retry_after}

-- A duration in whole seconds that ends no earlier than a time, and less than a second after it.
pub record Covers (now until : Time) (n : ℕ) : Type 0 where
  pub seconds : ℕ
  pub whole : n ≡ seconds * second
  pub reaches : until ≤ now + n
  pub tight : now + n < until + second

sub_time_small : (t u : Time) → u ≤ t → t - u ≤ max_int64 → sub_time t u ≡ pos (t - u)
unfolding sub_time
sub_time_small t u h k = ground arith

-- The Retry-After of a recovery that is to come, if the wait fits an int64 with a second to spare,
-- is a number of whole seconds, no shorter than the wait and less than a second longer.
pub retry_after-Covers :
    (now until : Time)
    → now < until
    → until - now + second ≤ max_int64
    → (n : ℕ) × (retry_after now until ≡ pos n) × Covers now until n
unfolding retry_after
retry_after-Covers now until h small =
    let n = (until - now + (second - 1)) / second * second in
    (
      n,
      rw (sub_time_small until now (omega arith) (omega arith)) (ground arith),
      record {
        seconds = (until - now + (second - 1)) / second;
        whole = refl;
        reaches = omega arith;
        tight = omega arith;
      },
    )

sub_time-min : (t u : Time) → u ≤ t → sub_time t u ≡ pos (min (t - u) max_int64)
unfolding sub_time
sub_time-min t u h = ground arith

-- If the wait with the second that is added less a nanosecond is above the largest int64, the sum
-- wraps round and the Retry-After is negative.
pub retry_after_overflows :
    (now until : Time) → max_int64 < until - now + (second - 1) → retry_after now until <ℤ pos 0
unfolding retry_after
retry_after_overflows now until h = rw (sub_time-min until now (omega arith)) (ground arith)
