-- ===== src/Guard/Store/Equality.antt =====
-- internal/guard/engine.go: entryEqual tells every two entries apart.
use cpa_antigravity_quota_gu.Prelude.{
  ◌≡◌, Bool, true, false, ◌&&◌, ◌||◌, not, Option, some, arith, eq_ℤ_iff, ◌==◌, ==_iff, text_eq,
  text_eq_iff,
}
use cpa_antigravity_quota_gu.Guard.Types.{
  ModelGroup, gemini, claude_gpt, other_group, State, other_state, Reason, other_reason, group_eq,
  state_eq, reason_eq, Float64, finite,
}
use cpa_antigravity_quota_gu.Guard.Records.{Entry}
use cpa_antigravity_quota_gu.Guard.Entries.{
  identity_differs, breaker_differs, history_differs, entry_equal, float_eq, remaining_equal,
}

group_eq_sound : (g h : ModelGroup) → group_eq g h ≡ true → g ≡ h
unfolding group_eq
group_eq_sound gemini h e = ground arith
group_eq_sound claude_gpt h e = ground arith
group_eq_sound (other_group a) gemini e = cc
group_eq_sound (other_group a) claude_gpt e = cc
group_eq_sound (other_group a) (other_group b) e = ground (arith, text_eq_iff a b)

state_eq_sound : (s t : State) → state_eq s t ≡ true → s ≡ t
unfolding state_eq
state_eq_sound (other_state a) (other_state b) e = ground (arith, text_eq_iff a b)
state_eq_sound s t e = ground arith

reason_eq_sound : (r s : Reason) → reason_eq r s ≡ true → r ≡ s
unfolding reason_eq
reason_eq_sound (other_reason a) (other_reason b) e = ground (arith, text_eq_iff a b)
reason_eq_sound r s e = ground arith

remaining_equal_sound : (a b : Option Float64) → remaining_equal a b ≡ true → a ≡ b
unfolding remaining_equal float_eq
remaining_equal_sound (some (finite a)) (some (finite b)) e = ground (arith, eq_ℤ_iff a b)
remaining_equal_sound a b e = ground arith

record SameIdentity (a b : Entry) : Type 0 where
  same_id : a.auth_id ≡ b.auth_id
  same_index : a.auth_index ≡ b.auth_index
  same_fingerprint : a.identity_fingerprint ≡ b.identity_fingerprint
  same_provider : a.provider ≡ b.provider
  same_priority : a.priority ≡ b.priority
  same_group : a.model_group ≡ b.model_group

record SameState (a b : Entry) : Type 0 where
  same_state : a.state ≡ b.state
  same_reason : a.reason ≡ b.reason
  same_opened : a.opened_at ≡ b.opened_at
  same_recover : a.recover_at ≡ b.recover_at
  same_reset : a.reset_at ≡ b.reset_at

record SameHistory (a b : Entry) : Type 0 where
  same_count : a.failure_count ≡ b.failure_count
  same_failure : a.last_failure_at ≡ b.last_failure_at
  same_start : a.half_open_started_at ≡ b.half_open_started_at
  same_lease : a.half_open_lease_until ≡ b.half_open_lease_until
  same_source : a.last_evidence_source ≡ b.last_evidence_source
  same_evidence : a.last_evidence_at ≡ b.last_evidence_at

identity_sound : (a b : Entry) → identity_differs a b ≡ false → SameIdentity a b
unfolding identity_differs
identity_sound a b h = ground (
  arith,
  text_eq_iff a.auth_id b.auth_id,
  text_eq_iff a.auth_index b.auth_index,
  text_eq_iff a.identity_fingerprint b.identity_fingerprint,
  text_eq_iff a.provider b.provider,
  eq_ℤ_iff a.priority b.priority,
  group_eq_sound a.model_group b.model_group,
)

breaker_sound : (a b : Entry) → breaker_differs a b ≡ false → SameState a b
unfolding breaker_differs
breaker_sound a b h =
    ground (arith, state_eq_sound a.state b.state, reason_eq_sound a.reason b.reason)

history_sound : (a b : Entry) → history_differs a b ≡ false → SameHistory a b
unfolding history_differs
history_sound a b h = ground (
  arith,
  eq_ℤ_iff a.failure_count b.failure_count,
  text_eq_iff a.last_evidence_source b.last_evidence_source,
)

six_tests :
    (a b c d f g : Bool)
    → (not (a || b || c) && d && f && g) ≡ true
    → (a ≡ false) × (b ≡ false) × (c ≡ false) × (d ≡ true) × (f ≡ true) × (g ≡ true)
six_tests a b c d f g h = ground arith

-- Entries that entryEqual does not tell apart are equal in every field.
pub entry_equal_sound : (a b : Entry) → entry_equal a b ≡ true → a ≡ b
unfolding entry_equal
entry_equal_sound a b h =
    let (di, db, dh, dr, dq, dp) =
      six_tests (identity_differs a b) (breaker_differs a b) (history_differs a b)
        (text_eq a.half_open_request_id b.half_open_request_id)
        (a.last_quota_evidence_at == b.last_quota_evidence_at)
        (remaining_equal a.remaining_percent b.remaining_percent) h in
    let si = identity_sound a b di in
    let ss = breaker_sound a b db in
    let sh = history_sound a b dh in
    let t = (text_eq_iff a.half_open_request_id b.half_open_request_id).0 dr in
    let q = (==_iff a.last_quota_evidence_at b.last_quota_evidence_at).0 dq in
    let r = remaining_equal_sound a.remaining_percent b.remaining_percent dp in
    λ i. record {
      auth_id = si.same_id i;
      auth_index = si.same_index i;
      identity_fingerprint = si.same_fingerprint i;
      provider = si.same_provider i;
      priority = si.same_priority i;
      model_group = si.same_group i;
      state = ss.same_state i;
      reason = ss.same_reason i;
      opened_at = ss.same_opened i;
      recover_at = ss.same_recover i;
      reset_at = ss.same_reset i;
      failure_count = sh.same_count i;
      last_failure_at = sh.same_failure i;
      half_open_started_at = sh.same_start i;
      half_open_lease_until = sh.same_lease i;
      last_evidence_source = sh.same_source i;
      last_evidence_at = sh.same_evidence i;
      last_quota_evidence_at = q i;
      remaining_percent = r i;
      half_open_request_id = t i;
    }
