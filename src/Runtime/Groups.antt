-- ===== src/Runtime/Groups.antt =====
-- internal/runtime/official_handlers.go: whether a group of models is blocked for the requests on
-- their way.
use cpa_antigravity_quota_gu.Prelude.{
  ℕ, ◌+◌, ◌/◌, Bool, true, false, ◌&&◌, ◌||◌, not, Option, none, some, List, [], ◌∷◌, ltb, ◌==◌,
  if◌then◌else◌, pos, negsuc, Text, text_eq, codes, lookup,
}
use cpa_antigravity_quota_gu.Guard.Types.{
  Time, Duration, second, ModelGroup, group_text, group_eq, State, uninitialized, closed, opened,
  half_open, other_state,
}
use cpa_antigravity_quota_gu.Guard.Records.{
  Entry, Snapshot, no_code, model_cooldown, auth_uninitialized,
}
use cpa_antigravity_quota_gu.Guard.Status.{evidence_fresh}
use cpa_antigravity_quota_gu.Guard.Candidates.{needs_fresh}
use cpa_antigravity_quota_gu.Guard.Pick.{retry_after}
use cpa_antigravity_quota_gu.Runtime.Records.{GroupBlockStatus, Termination, group_of}

-- The variables of the loop of `evaluateGuardGroup`.
pub record GroupScan : Type 0 where
  pub seen_entries : ℕ
  pub unknown : ℕ
  pub cooling : ℕ
  pub half_open_ready : Bool

abbrev pub empty_group_scan : GroupScan
empty_group_scan = record { seen_entries = 0; unknown = 0; cooling = 0; half_open_ready = false }

-- The switch on the state of an entry; `none` is the return on a closed one.
unfoldable pub scan_group_state : Time → State → Entry → GroupScan → Option GroupScan
scan_group_state at closed x s = none
scan_group_state at uninitialized x s =
    some (record s { seen_entries = s.seen_entries + 1; unknown = s.unknown + 1 })
scan_group_state at half_open x s = some (record s {
  seen_entries = s.seen_entries + 1;
  cooling = s.cooling + 1;
  half_open_ready = s.half_open_ready || ltb at x.half_open_lease_until;
})
scan_group_state at opened x s =
    some (record s { seen_entries = s.seen_entries + 1; cooling = s.cooling + 1 })
scan_group_state at (other_state _) x s = some (record s { seen_entries = s.seen_entries + 1 })

-- One turn of the loop.
unfoldable pub scan_group_entry :
    Time → Time → ModelGroup → Duration → Entry → GroupScan → Option GroupScan
unfolding scan_group_state evidence_fresh group_eq
scan_group_entry wall at group max_age x s =
    if not (group_eq x.model_group group)
    then some s
    else if needs_fresh x.state && not (evidence_fresh wall x at max_age)
    then some s
    else scan_group_state at x.state x s

abbrev pub go_on {ℓ κ} : {A : Type ℓ} {B : Type κ} → Option A → (A → Option B) → Option B
go_on none f = none
go_on (some a) f = f a

-- The loop of `evaluateGuardGroup`; `none` where it returns that nothing is blocked.
unfoldable pub scan_group :
    Time → Time → ModelGroup → Duration → List Entry → GroupScan → Option GroupScan
unfolding scan_group_entry
scan_group wall at group max_age [] s = some s
scan_group wall at group max_age (x ∷ xs) s =
    go_on (scan_group_entry wall at group max_age x s) (scan_group wall at group max_age xs)

-- `groupBlockStatus{}`
abbrev pub not_blocked : GroupBlockStatus
not_blocked = record { blocked = false; code = no_code; http_status = 0; retry_after = pos 0 }

abbrev pub recovery_of : Option Time → Time
recovery_of none = 0
recovery_of (some t) = t

-- What `evaluateGuardGroup` does after its loop. Its rounding of the wait is that of `retryAfter`.
unfoldable pub judge_group : Snapshot → ModelGroup → Text → Option GroupScan → GroupBlockStatus
unfolding retry_after lookup text_eq
judge_group snapshot group unknown_policy none = not_blocked
judge_group snapshot group unknown_policy (some s) =
    if s.half_open_ready
    then not_blocked
    else if s.seen_entries == 0 || ltb 0 s.unknown
    then (if text_eq unknown_policy (codes "fail_closed")
        then record {
          blocked = true;
          code = auth_uninitialized;
          http_status = 503;
          retry_after = pos 0;
        }
        else not_blocked)
    else if not (s.cooling == s.seen_entries)
    then not_blocked
    else record {
      blocked = true;
      code = model_cooldown;
      http_status = 429;
      retry_after =
          retry_after snapshot.generated_at
            (recovery_of (lookup (group_text group) snapshot.earliest_recover));
    }

-- `evaluateGuardGroup`
unfoldable pub evaluate_guard_group :
    Time → Snapshot → ModelGroup → Text → Duration → GroupBlockStatus
unfolding scan_group judge_group
evaluate_guard_group wall snapshot group unknown_policy max_age =
    judge_group snapshot group unknown_policy
      (scan_group wall snapshot.generated_at group max_age snapshot.entries empty_group_scan)

-- `int64(d/time.Second)`, for a header that is only set when the wait is positive.
abbrev pub seconds_of : Duration → Option ℕ
seconds_of (pos n) = if n == 0 then none else some (n / second)
seconds_of (negsuc n) = none

-- `guardTerminationResponse`
abbrev pub guard_termination_response : GroupBlockStatus → Option ModelGroup → Termination
guard_termination_response status group = record {
  status_code = status.http_status;
  code = status.code;
  group = group;
  retry_seconds = seconds_of status.retry_after;
}

-- `guardGroupEnabled`
unfoldable pub lists_group : ModelGroup → List Text → Bool
unfolding group_of group_eq
lists_group group [] = false
lists_group group (candidate ∷ rest) = group_eq (group_of candidate) group || lists_group group rest

unfoldable pub guard_group_enabled : ModelGroup → List Text → Bool
unfolding lists_group
guard_group_enabled group [] = true
guard_group_enabled group (candidate ∷ rest) = lists_group group (candidate ∷ rest)
