-- ===== src/Guard/Invariant.antt =====
-- What holds of every entry and engine that internal/guard/engine.go, observe.go and pick.go build.
pub mod Roster
pub mod Engines
pub mod Entries
use cpa_antigravity_quota_gu.Prelude.{
  ℕ, ◌+◌, ◌≤◌, ◌<◌, ◌≡◌, Bool, true, false, ◌⊎◌, Option, none, some, List, [], ◌∷◌, ℤ, pos, ◌<ℤ◌,
  ◌≤ℤ◌, Text, AllEntries, Distinct,
}
use cpa_antigravity_quota_gu.Guard.Types.{
  Time, State, uninitialized, closed, opened, half_open, other_state, Reason, no_reason,
  manual_probe, quota_zero, explicit_429, generic_429, group_valid, Float64,
}
use cpa_antigravity_quota_gu.Guard.Records.{Config, Entry}
use cpa_antigravity_quota_gu.Guard.Reset.{not_finite}
use cpa_antigravity_quota_gu.Guard.Engine.{Engine, entry_key}
use cpa_antigravity_quota_gu.Guard.Evidence.{float_negative, float_above_hundred}

-- No lease is held.
pub record NoLease (x : Entry) : Type 0 where
  pub not_started : x.half_open_started_at ≡ 0
  pub not_leased : x.half_open_lease_until ≡ 0
  pub no_holder : x.half_open_request_id ≡ []

-- An entry that is not cooling keeps nothing of a breaker.
pub record Idle (x : Entry) : Type 0 where
  pub free : NoLease x
  pub no_cause : x.reason ≡ no_reason
  pub never_opened : x.opened_at ≡ 0
  pub no_recovery : x.recover_at ≡ 0
  pub no_reset : x.reset_at ≡ 0

abbrev pub opens : Reason → Bool
opens quota_zero = true
opens explicit_429 = true
opens generic_429 = true
opens _ = false

-- An open breaker has a reason, and recovers after it opened.
pub record Cooling (x : Entry) : Type 0 where
  pub free : NoLease x
  pub cause : opens x.reason ≡ true
  pub recovers : x.opened_at < x.recover_at

-- A half-open breaker waits for its manual probe, or is leased until after the lease began.
pub record Pending (x : Entry) : Type 0 where
  pub free : NoLease x
  pub manual : x.reason ≡ manual_probe

abbrev pub Phase : State → Entry → Type 0
Phase uninitialized x = Idle x
Phase closed x = Idle x
Phase opened x = Cooling x
Phase half_open x = Pending x ⊎ (x.half_open_started_at < x.half_open_lease_until)
Phase (other_state _) x = ⊥

abbrev pub PercentOk : Option Float64 → Type 0
PercentOk none = Unit {0}
PercentOk (some x) =
    (not_finite x ≡ false) × (float_negative x ≡ false) × (float_above_hundred x ≡ false)

pub record IsValid (x : Entry) : Type 0 where
  pub phase : Phase x.state x
  pub grouped : group_valid x.model_group ≡ true
  pub ordered : x.last_quota_evidence_at ≤ x.last_evidence_at
  pub percent : PercentOk x.remaining_percent

-- What `validateConfig` grants.
pub record IsValidConfig (c : Config) : Type 0 where
  pub threshold : pos 0 <ℤ c.generic_429_threshold
  pub window : pos 0 <ℤ c.generic_429_window
  pub initial : pos 0 <ℤ c.generic_429_initial_cooldown
  pub capped : c.generic_429_initial_cooldown ≤ℤ c.generic_429_max_cooldown
  pub lease : pos 0 <ℤ c.half_open_lease
  pub age : pos 0 <ℤ c.evidence_max_age

-- An entry stands in the map under its own key.
abbrev pub Filed : Text → Entry → Type 0
Filed k x = IsValid x × (k ≡ entry_key x.auth_index x.model_group)

pub record IsValidEngine (e : Engine) : Type 0 where
  pub configured : IsValidConfig e.config
  pub filed : AllEntries Filed e.entries
  pub distinct : Distinct e.entries
