-- ===== src/Guard/Types.antt =====
-- internal/guard/types.go: the breaker's data, and the parts of package time that it computes with.
use cpa_antigravity_quota_gu.Prelude.{
  ℕ, ◌^◌, ◌+◌, ◌-◌, min, ◌≡◌, Bool, true, false, Option, none, some, leb, ◌==◌, if◌then◌else◌, ℤ,
  pos, negsuc, pos_part, neg_part, max_int64, Text, codes, text_eq,
}

-- A time.Time is the nanoseconds since its zero value, the first instant of year 1, in UTC.
abbrev pub Time : Type 0
Time = ℕ

-- A time.Duration is a signed number of nanoseconds.
abbrev pub Duration : Type 0
Duration = ℤ

abbrev pub second : ℕ
second = 1000000000

abbrev pub minute : ℕ
minute = 60000000000

abbrev pub is_zero : Time → Bool
is_zero t = t == 0

-- `t.Add(d)`
abbrev pub add_time : Time → Duration → Time
add_time t d = t + pos_part d - neg_part d

-- `t.Sub(u)`: the difference saturates at the ends of int64.
unfoldable pub sub_time : Time → Time → Duration
sub_time t u = if leb u t then pos (min (t - u) max_int64) else negsuc (min (u - t - 1) max_int64)

-- A string constant of each type is a constructor; the last constructor holds any other string.
pub data ModelGroup : Type 0 where
  gemini claude_gpt : ModelGroup
  other_group : Text → ModelGroup

pub data State : Type 0 where
  uninitialized closed opened half_open : State
  other_state : Text → State

pub data Reason : Type 0 where
  no_reason quota_zero explicit_429 generic_429 manual_probe : Reason
  other_reason : Text → Reason

-- `unset` is the empty string.
pub data Mode : Type 0 where
  unset_mode observe enforce : Mode
  other_mode : Text → Mode

pub data Policy : Type 0 where
  unset_policy fail_closed fail_open : Policy
  other_policy : Text → Policy

abbrev pub group_text : ModelGroup → Text
group_text gemini = codes "gemini"
group_text claude_gpt = codes "claude_gpt"
group_text (other_group s) = s

-- `ModelGroup.Valid`
abbrev pub group_valid : ModelGroup → Bool
group_valid gemini = true
group_valid claude_gpt = true
group_valid (other_group _) = false

-- `State.Valid`
abbrev pub state_valid : State → Bool
state_valid (other_state _) = false
state_valid _ = true

-- `Reason.Valid`
abbrev pub reason_valid : Reason → Bool
reason_valid (other_reason _) = false
reason_valid _ = true

-- `==` on the string types.
unfoldable pub group_eq : ModelGroup → ModelGroup → Bool
group_eq gemini gemini = true
group_eq claude_gpt claude_gpt = true
group_eq (other_group a) (other_group b) = text_eq a b
group_eq _ _ = false

unfoldable pub state_eq : State → State → Bool
state_eq uninitialized uninitialized = true
state_eq closed closed = true
state_eq opened opened = true
state_eq half_open half_open = true
state_eq (other_state a) (other_state b) = text_eq a b
state_eq _ _ = false

unfoldable pub reason_eq : Reason → Reason → Bool
reason_eq no_reason no_reason = true
reason_eq quota_zero quota_zero = true
reason_eq explicit_429 explicit_429 = true
reason_eq generic_429 generic_429 = true
reason_eq manual_probe manual_probe = true
reason_eq (other_reason a) (other_reason b) = text_eq a b
reason_eq _ _ = false

abbrev pub is_enforce : Mode → Bool
is_enforce enforce = true
is_enforce _ = false

abbrev pub is_observe : Mode → Bool
is_observe observe = true
is_observe _ = false

abbrev pub is_fail_open : Policy → Bool
is_fail_open fail_open = true
is_fail_open _ = false

-- A float64. Each finite one is an integer multiple of 2^-1074, and `finite` holds that integer,
-- so that tests of order and equality are exact.
pub data Float64 : Type 0 where
  nan pos_inf neg_inf : Float64
  finite : ℤ → Float64

-- The float64 1.0.
unfoldable pub float_one : ℕ
float_one = 2 ^ 1074

-- The sentinel errors of the package, and those that are built where they occur.
pub data Error : Type 0 where
  invalid_config invalid_identity invalid_evidence unsafe_state_path invalid_state : Error
  half_open_pending half_open_active requires_open : Error
  io_error not_exist read_back_mismatch : Error

pub data Fallible {ℓ} (A : Type ℓ) : Type ℓ where
  returns : A → Fallible A
  fails : Error → Fallible A

infixl 5 ◌>>=◌ ◌>>◌
abbrev pub ◌>>=◌ {ℓ κ} : {A : Type ℓ} {B : Type κ} → Fallible A → (A → Fallible B) → Fallible B
fails reason >>= next = fails reason
returns x >>= next = next x

-- The call that is only made for its error.
abbrev pub ◌>>◌ {κ} : {B : Type κ} → Fallible (Unit {0}) → Fallible B → Fallible B
fails reason >> next = fails reason
returns _ >> next = next

-- `if bad { return e }`
abbrev pub reject_if : Bool → Error → Fallible (Unit {0})
reject_if true e = fails e
reject_if false e = returns tt

-- `if err != nil { return err }`
abbrev pub proceed : Option Error → Fallible (Unit {0})
proceed none = returns tt
proceed (some e) = fails e

pub returns_injective {ℓ} : {A : Type ℓ} {a b : A} → returns a ≡ returns b → a ≡ b
returns_injective h = cc

pub fails_ne_returns {ℓ} : {A : Type ℓ} {x : Error} {a : A} → ¬ (fails x ≡ returns a)
fails_ne_returns h = cc
