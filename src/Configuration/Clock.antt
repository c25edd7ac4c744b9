-- ===== src/Configuration/Clock.antt =====
-- internal/config/schedule.go: the time of day, and what parseHHMM uses of strings and strconv.
-- A time here is read in its location: the nanoseconds of the calendar there.
use cpa_antigravity_quota_gu.Prelude.{
  ℕ, ◌+◌, ◌-◌, ◌*◌, ◌/◌, ◌%◌, Bool, true, false, ◌&&◌, Option, none, some, [], ◌∷◌, leb, ◌==◌,
  if◌then◌else◌, ℤ, pos, negsuc, max_int64, Text,
}
use cpa_antigravity_quota_gu.Guard.Types.{Time, minute, second}

-- `now.Hour()*60 + now.Minute()`
unfoldable pub minute_of_day : Time → ℕ
minute_of_day now = now / minute % 1440

-- `now.Second()`
unfoldable pub second_of_minute : Time → ℕ
second_of_minute now = now / second % 60

-- strings.SplitN with two parts: none when the separator does not occur.
unfoldable pub cut : ℕ → Text → Option (Text × Text)
cut sep [] = none
cut sep (c ∷ s) = let rest = cut sep s in if c == sep then some ([], s) else before_cut c rest
  where
    before_cut : ℕ → Option (Text × Text) → Option (Text × Text)
    before_cut c none = none
    before_cut c (some (a, b)) = some (c ∷ a, b)

-- The value of a run of digits, after what was read so far.
unfoldable pub digits : ℕ → Text → Option ℕ
digits n [] = some n
digits n (c ∷ s) =
    let rest = digits (n * 10 + (c - 48)) s in if leb 48 c && leb c 57 then rest else none

unfoldable pub unsigned : Text → Option ℕ
unfolding digits
unsigned [] = none
unsigned (c ∷ s) = digits 0 (c ∷ s)

-- The int of a sign and a size, if it is one.
abbrev signed_int : Bool → Option ℕ → Option ℤ
signed_int sign none = none
signed_int false (some n) = if leb n max_int64 then some (pos n) else none
signed_int true (some n) =
    if n == 0 then some (pos 0) else if leb (n - 1) max_int64 then some (negsuc (n - 1)) else none

-- strconv.Atoi
unfoldable pub atoi : Text → Option ℤ
unfolding unsigned
atoi [] = none
atoi (c ∷ s) =
    if c == 45
    then signed_int true (unsigned s)
    else if c == 43
    then signed_int false (unsigned s)
    else signed_int false (unsigned (c ∷ s))
