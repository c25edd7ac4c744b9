-- ===== src/Priority/Floats.antt =====
-- The float64 arithmetic of internal/priority: IEEE 754 binary64, rounding to nearest even.
-- Products and sums are rounded one by one, as on amd64. A zero has no sign; no operation of the package tells the two apart.
use cpa_antigravity_quota_gu.Prelude.{
  ℕ, suc, ◌+◌, ◌*◌, ◌/◌, ◌%◌, ◌^◌, Bool, true, false, ltb, ◌==◌, if◌then◌else◌, leb, List, [], ◌∷◌,
  ℤ, pos, negsuc, pos_part, neg_part, ltb_ℤ, leb_ℤ, ◌-ℤ◌,
}
use cpa_antigravity_quota_gu.Guard.Types.{Float64, nan, pos_inf, neg_inf, finite, float_one}

-- The exponent of the spacing of the floats at a magnitude: the largest e with 2^(52 + e) not
-- above it, or 0, found bit by bit. A magnitude is a number of units of 2^-1074.
abbrev bit_values : List ℕ
bit_values = 1024 ∷ 512 ∷ 256 ∷ 128 ∷ 64 ∷ 32 ∷ 16 ∷ 8 ∷ 4 ∷ 2 ∷ 1 ∷ []

exponent : List ℕ → ℕ → ℕ → ℕ
exponent [] e n = e
exponent (b ∷ bs) e n = exponent bs (if leb (2 ^ (52 + e + b)) n then e + b else e) n

nearest_even : ℕ → ℕ → ℕ
nearest_even a b =
    let d = a / b in
    let r = 2 * (a % b) in if ltb r b then d else if ltb b r then d + 1 else d + d % 2

-- The float nearest to a quotient.
unfoldable pub round : ℕ → ℕ → Float64
unfolding exponent nearest_even
round p q =
    let k = 2 ^ exponent bit_values 0 (p / q) in
    let n = nearest_even p (q * k) * k in if ltb n (2 ^ 2098) then finite (pos n) else pos_inf

abbrev pub opposite : ℤ → ℤ
opposite z = pos 0 -ℤ z

unfoldable pub negate : Float64 → Float64
negate nan = nan
negate pos_inf = neg_inf
negate neg_inf = pos_inf
negate (finite z) = finite (opposite z)

-- The float nearest to a signed quotient.
unfoldable pub round_signed : ℤ → ℕ → Float64
unfolding round negate
round_signed (pos n) q = round n q
round_signed (negsuc n) q = negate (round (suc n) q)

unfoldable pub sub_float : Float64 → Float64 → Float64
unfolding round_signed
sub_float (finite a) (finite b) = round_signed (a -ℤ b) 1
sub_float pos_inf (finite b) = pos_inf
sub_float neg_inf (finite b) = neg_inf
sub_float (finite a) pos_inf = neg_inf
sub_float (finite a) neg_inf = pos_inf
sub_float pos_inf neg_inf = pos_inf
sub_float neg_inf pos_inf = neg_inf
sub_float _ _ = nan

unfoldable pub add_float : Float64 → Float64 → Float64
unfolding sub_float negate
add_float a b = sub_float a (negate b)

abbrev pub negative : ℤ → Bool
negative z = ltb_ℤ z (pos 0)

abbrev pub size : ℤ → ℕ
size z = pos_part z + neg_part z

-- A magnitude with a sign.
abbrev signed : Bool → Float64 → Float64
signed true x = negate x
signed false x = x

abbrev differ : Bool → Bool → Bool
differ true true = false
differ false false = false
differ _ _ = true

-- An infinity with a sign, times or over a number.
abbrev infinite : Bool → Float64
infinite true = neg_inf
infinite false = pos_inf

abbrev inf_times : Bool → ℤ → Float64
inf_times s z = if size z == 0 then nan else infinite (differ s (negative z))

unfoldable pub mul_float : Float64 → Float64 → Float64
unfolding round negate float_one
mul_float (finite a) (finite b) =
    signed (differ (negative a) (negative b)) (round (size a * size b) float_one)
mul_float (finite a) pos_inf = inf_times false a
mul_float (finite a) neg_inf = inf_times true a
mul_float pos_inf (finite b) = inf_times false b
mul_float neg_inf (finite b) = inf_times true b
mul_float pos_inf pos_inf = pos_inf
mul_float neg_inf neg_inf = pos_inf
mul_float pos_inf neg_inf = neg_inf
mul_float neg_inf pos_inf = neg_inf
mul_float _ _ = nan

unfoldable pub div_float : Float64 → Float64 → Float64
unfolding round negate float_one
div_float (finite a) (finite b) =
    if size b == 0
    then (if size a == 0 then nan else infinite (negative a))
    else signed (differ (negative a) (negative b)) (round (size a * float_one) (size b))
div_float (finite a) pos_inf = finite (pos 0)
div_float (finite a) neg_inf = finite (pos 0)
div_float pos_inf (finite b) = infinite (negative b)
div_float neg_inf (finite b) = infinite (differ true (negative b))
div_float _ _ = nan

-- `a < b`, `a <= b`
unfoldable pub less : Float64 → Float64 → Bool
less (finite a) (finite b) = ltb_ℤ a b
less neg_inf (finite b) = true
less neg_inf pos_inf = true
less (finite a) pos_inf = true
less _ _ = false

unfoldable pub less_eq : Float64 → Float64 → Bool
less_eq (finite a) (finite b) = leb_ℤ a b
less_eq nan _ = false
less_eq _ nan = false
less_eq neg_inf _ = true
less_eq _ pos_inf = true
less_eq _ _ = false

-- math.Abs, math.Max and math.Min.
unfoldable pub abs_float : Float64 → Float64
abs_float nan = nan
abs_float pos_inf = pos_inf
abs_float neg_inf = pos_inf
abs_float (finite z) = finite (pos (size z))

unfoldable pub max_float : Float64 → Float64 → Float64
unfolding less
max_float pos_inf b = pos_inf
max_float nan pos_inf = pos_inf
max_float nan _ = nan
max_float a nan = nan
max_float a b = if less a b then b else a

unfoldable pub min_float : Float64 → Float64 → Float64
unfolding less
min_float neg_inf b = neg_inf
min_float nan neg_inf = neg_inf
min_float nan _ = nan
min_float a nan = nan
min_float a b = if less a b then a else b

-- `float64(n)`, and a constant that is a quotient.
unfoldable pub of_int : ℤ → Float64
unfolding round negate float_one
of_int z = signed (negative z) (round (size z * float_one) 1)

unfoldable pub ratio : ℕ → ℕ → Float64
unfolding round float_one
ratio p q = round (p * float_one) q

abbrev pub float_zero : Float64
float_zero = finite (pos 0)
