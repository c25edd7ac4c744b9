-- ===== src/Guard/Breaker.antt =====
-- internal/guard/observe.go: opening and closing the breaker of an entry, and writing it back.
use cpa_antigravity_quota_gu.Prelude.{
  ◌+◌, Bool, true, false, ◌&&◌, not, [], ltb, if◌then◌else◌, pos, u64, Text, insert,
}
use cpa_antigravity_quota_gu.Guard.Types.{
  Time, is_zero, State, uninitialized, closed, opened, half_open, Reason, no_reason, quota_zero,
  explicit_429, manual_probe,
}
use cpa_antigravity_quota_gu.Guard.Records.{Entry, Metrics}
use cpa_antigravity_quota_gu.Guard.Engine.{Engine, mark_dirty}
use cpa_antigravity_quota_gu.Guard.Entries.{entry_equal}

-- `entry.State == StateOpen || entry.State == StateHalfOpen`
abbrev pub is_cooling : State → Bool
is_cooling opened = true
is_cooling half_open = true
is_cooling _ = false

abbrev pub is_opened : State → Bool
is_opened opened = true
is_opened _ = false

abbrev pub is_half_open : State → Bool
is_half_open half_open = true
is_half_open _ = false

abbrev pub is_closed : State → Bool
is_closed closed = true
is_closed _ = false

abbrev pub is_uninitialized : State → Bool
is_uninitialized uninitialized = true
is_uninitialized _ = false

-- The reasons of a hard breaker: quota evidence and explicit exhaustion.
abbrev pub is_hard : Reason → Bool
is_hard quota_zero = true
is_hard explicit_429 = true
is_hard _ = false

abbrev pub is_quota_zero : Reason → Bool
is_quota_zero quota_zero = true
is_quota_zero _ = false

abbrev pub is_manual : Reason → Bool
is_manual manual_probe = true
is_manual _ = false

-- `openLocked`: the entry, and the counter of opened cooldowns.
unfoldable pub open_entry : Reason → Time → Time → Time → Entry → Entry
open_entry reason opened_at recover_at reset_at entry = record entry {
  state = opened;
  reason = reason;
  opened_at = opened_at;
  recover_at = recover_at;
  reset_at = reset_at;
  half_open_started_at = 0;
  half_open_lease_until = 0;
  half_open_request_id = [];
}

unfoldable pub count_opened : Entry → Metrics → Metrics
count_opened entry m =
    if is_cooling entry.state
    then m
    else record m { cooldown_opened_total = u64 (m.cooldown_opened_total + 1) }

-- `closeLocked`
unfoldable pub close_entry : Entry → Entry
close_entry entry = record entry {
  state = closed;
  reason = no_reason;
  opened_at = 0;
  recover_at = 0;
  reset_at = 0;
  failure_count = pos 0;
  last_failure_at = 0;
  half_open_started_at = 0;
  half_open_lease_until = 0;
  half_open_request_id = [];
}

abbrev pub count_unknown_auth : Engine → Engine
count_unknown_auth e = record e {
  metrics = record (e.metrics) { unknown_auth_total = u64 (e.metrics.unknown_auth_total + 1) };
}

-- `!entry.LastEvidenceAt.IsZero() && at.Before(entry.LastEvidenceAt)`
abbrev pub is_outdated : Entry → Time → Bool
is_outdated entry at = not (is_zero entry.last_evidence_at) && ltb at entry.last_evidence_at

-- `changed := !entryEqual(before, *entry)`, and the mark that follows it.
unfoldable pub commit : Time → Time → Text → Entry → Entry → Engine → Engine
unfolding mark_dirty
commit wall at key before after e =
    let e' = record e { entries = insert key after e.entries } in
    if entry_equal before after then e' else mark_dirty wall at e'

abbrev pub or_wall : Time → Time → Time
or_wall wall t = if is_zero t then wall else t
