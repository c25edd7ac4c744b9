-- ===== src/Guard/Observe.antt =====
-- internal/guard/observe.go: quota probes and usage records drive the breaker of one entry.
-- A Go pointer into the entries is the key under which the entry was found, with the entry.
use cpa_antigravity_quota_gu.Prelude.{
  ◌+◌, Bool, true, false, ◌&&◌, ◌||◌, not, Option, none, some, [], ltb, if◌then◌else◌, ℤ, pos,
  ltb_ℤ, eq_ℤ, inc_int, u64, Text, codes, text_eq, is_empty, trim_space, lookup,
}
use cpa_antigravity_quota_gu.Guard.Types.{
  Time, is_zero, add_time, sub_time, ModelGroup, State, uninitialized, Reason, no_reason,
  quota_zero, explicit_429, generic_429,
}
use cpa_antigravity_quota_gu.Guard.Records.{
  Config, Entry, UsageObservation, ObservationResult, Metrics,
}
use cpa_antigravity_quota_gu.Guard.Classify.{classify_model, is_antigravity_provider}
use cpa_antigravity_quota_gu.Guard.Engine.{Engine, entry_key}
use cpa_antigravity_quota_gu.Guard.Entries.{entry_equal}
use cpa_antigravity_quota_gu.Guard.Reset.{Parsers, explicit_quota_exhaustion, extract_reset_at}
use cpa_antigravity_quota_gu.Guard.Breaker.{
  close_entry, commit, count_opened, count_unknown_auth, is_closed, is_cooling, is_half_open,
  is_hard, is_opened, is_outdated, is_quota_zero, open_entry, or_wall,
}

-- The `Entry` in the map under the key of `lookupEntryLocked`, if it has the id asked for.
abbrev text_or_empty : Option Text → Text
text_or_empty none = []
text_or_empty (some t) = t

unfoldable pub lookup_index : Text → Text → Engine → Text
unfolding trim_space lookup
lookup_index auth_index auth_id e =
    let index = trim_space auth_index in
    let id = trim_space auth_id in
    if is_empty index && not (is_empty id) then text_or_empty (lookup id e.auth_by_id) else index

abbrev with_id : Text → Text → Option Entry → Option (Text × Entry)
with_id id key none = none
with_id id key (some entry) =
    if not (is_empty id) && not (text_eq entry.auth_id id) then none else some (key, entry)

-- `lookupEntryLocked`
unfoldable pub lookup_entry : Text → Text → ModelGroup → Engine → Option (Text × Entry)
unfolding lookup_index entry_key lookup trim_space text_eq
lookup_entry auth_index auth_id group e =
    let key = entry_key (lookup_index auth_index auth_id e) group in
    with_id (trim_space auth_id) key (lookup key e.entries)

-- The failure counter and the evidence that `observeGeneric429Locked` writes first.
unfoldable pub count_generic : Config → Time → Entry → Entry
unfolding sub_time inc_int
count_generic config at entry = record entry {
  failure_count =
      (if is_zero entry.last_failure_at
          || ltb_ℤ config.generic_429_window (sub_time at entry.last_failure_at)
          || ltb at entry.last_failure_at
        then pos 1
        else inc_int entry.failure_count);
  last_failure_at = at;
  last_evidence_at = at;
  last_evidence_source = codes "usage_429";
}

-- A breaker of a hard reason that is still open at the time given.
abbrev pub hard_open : Entry → Time → Bool
hard_open entry at = is_opened entry.state && ltb at entry.recover_at && is_hard entry.reason

abbrev pub below_threshold : Config → Entry → Bool
below_threshold config counted =
    ltb_ℤ counted.failure_count config.generic_429_threshold && not (is_cooling counted.state)

unfoldable pub generic_recover_at : Config → Time → Option Time → Entry → Time
generic_recover_at config at reset counted =
    let cooldown =
      if is_cooling counted.state || ltb_ℤ config.generic_429_threshold counted.failure_count
      then config.generic_429_max_cooldown
      else config.generic_429_initial_cooldown in
    let recover_at = add_time at cooldown in
    elim reset [ none ↦ recover_at | some r ↦ if ltb recover_at r then r else recover_at ]

abbrev pub or_zero : Option Time → Time
or_zero none = 0
or_zero (some t) = t

-- `observeGeneric429Locked`; `none` is an absent reset, whose time is zero.
unfoldable pub observe_generic : Config → Time → Option Time → Entry → Entry
unfolding count_generic generic_recover_at open_entry
observe_generic config at reset entry =
    let counted = count_generic config at entry in
    if hard_open counted at || below_threshold config counted
    then counted
    else open_entry generic_429 at (generic_recover_at config at reset counted) (or_zero reset)
        counted

unfoldable pub generic_metrics : Config → Time → Entry → Metrics → Metrics
unfolding count_generic count_opened
generic_metrics config at entry m =
    let counted = count_generic config at entry in
    let m' =
      if is_half_open counted.state
      then record m { half_open_failure_total = u64 (m.half_open_failure_total + 1) }
      else m in
    if hard_open counted at
    then m
    else if below_threshold config counted
    then m'
    else count_opened counted m'

-- The recovery time of an explicit exhaustion, never before that of a hard breaker still open.
unfoldable pub explicit_recover_at : Config → Time → Option Time → Entry → Time
explicit_recover_at config at reset entry =
    let fallback = add_time at config.generic_429_max_cooldown in
    let announced : Time = elim reset [
      | none ↦ fallback
      | some r ↦ if ltb at r then r else fallback
    ] in
    if hard_open entry at && ltb announced entry.recover_at then entry.recover_at else announced

unfoldable pub explicit_reason : Time → Entry → Reason
explicit_reason at entry =
    if hard_open entry at && is_quota_zero entry.reason then quota_zero else explicit_429

unfoldable pub observe_explicit : Config → Time → Option Time → Entry → Entry
unfolding explicit_recover_at explicit_reason open_entry inc_int
observe_explicit config at reset entry =
    let recover_at = explicit_recover_at config at reset entry in
    record (open_entry (explicit_reason at entry) at recover_at recover_at entry) {
      failure_count = inc_int entry.failure_count;
      last_failure_at = at;
      last_evidence_at = at;
      last_evidence_source = codes "usage_429";
    }

-- A success of the request that holds the half-open lease.
abbrev pub is_lease_success : UsageObservation → Entry → Bool
is_lease_success o entry =
    is_half_open entry.state
    && not (is_zero entry.half_open_started_at)
    && not (ltb o.observed_at entry.half_open_started_at)
    && not (is_empty entry.half_open_request_id)
    && text_eq (trim_space o.request_id) entry.half_open_request_id

unfoldable pub observe_success : UsageObservation → Entry → Entry
unfolding close_entry text_eq trim_space
observe_success o entry =
    if is_lease_success o entry
    then record (close_entry entry) {
      last_evidence_at = o.observed_at;
      last_evidence_source = codes "usage_success";
    }
    else if is_closed entry.state && not (ltb o.observed_at entry.last_failure_at)
    then record entry { failure_count = pos 0; last_failure_at = 0 }
    else entry

abbrev pub too_many_requests : ℤ
too_many_requests = pos 429

-- The part of `ObserveUsage` that writes the entry.
unfoldable pub observe_entry : Parsers → Config → UsageObservation → Entry → Entry
unfolding observe_success observe_explicit observe_generic
observe_entry p config o entry =
    let reset = extract_reset_at p o.headers o.body o.observed_at in
    if not o.failed
    then observe_success o entry
    else if eq_ℤ o.status_code too_many_requests
    then (if explicit_quota_exhaustion o.body
        then observe_explicit config o.observed_at reset entry
        else observe_generic config o.observed_at reset entry)
    else entry

unfoldable pub observe_metrics : Config → UsageObservation → Entry → Metrics → Metrics
unfolding generic_metrics count_opened text_eq trim_space
observe_metrics config o entry m =
    if not o.failed
    then (if is_lease_success o entry
        then record m { half_open_success_total = u64 (m.half_open_success_total + 1) }
        else m)
    else if eq_ℤ o.status_code too_many_requests
    then (if explicit_quota_exhaustion o.body
        then count_opened entry m
        else generic_metrics config o.observed_at entry m)
    else m

-- A leased half-open entry, seen by another request than the one that holds the lease.
abbrev pub is_fenced : UsageObservation → Entry → Bool
is_fenced o entry =
    is_half_open entry.state
    && not (is_empty entry.half_open_request_id)
    && not (text_eq (trim_space o.request_id) entry.half_open_request_id)

abbrev not_handled : ObservationResult
not_handled = record {
  handled = false;
  changed = false;
  group = none;
  state = none;
  reason = no_reason;
}

abbrev observed : ModelGroup → Bool → State → Reason → ObservationResult
observed g changed s r = record {
  handled = true;
  changed = changed;
  group = some g;
  state = some s;
  reason = r;
}

-- What `ObserveUsage` does under the lock.
unfoldable pub observe_locked :
    Parsers
    → Time
    → UsageObservation
    → ModelGroup
    → Option (Text × Entry)
    → Engine
    → Engine × ObservationResult
unfolding observe_entry observe_metrics commit text_eq trim_space
observe_locked p wall o group none e =
    (count_unknown_auth e, observed group false uninitialized no_reason)
observe_locked p wall o group (some (key, entry)) e =
    let after = observe_entry p e.config o entry in
    if is_outdated entry o.observed_at || is_fenced o entry
    then (e, observed group false entry.state entry.reason)
    else (
      commit wall o.observed_at key entry after
          (record e { metrics = observe_metrics e.config o entry e.metrics }),
      observed group (not (entry_equal entry after)) after.state after.reason,
    )

-- The times of a record, where it has none.
abbrev pub normalized_observation : Time → UsageObservation → UsageObservation
normalized_observation wall observation =
    let at = or_wall wall observation.observed_at in
    record observation {
      observed_at = at;
      requested_at = if is_zero observation.requested_at then at else observation.requested_at;
    }

unfoldable pub observe_group :
    Parsers → Time → UsageObservation → Option ModelGroup → Engine → Engine × ObservationResult
unfolding observe_locked lookup_entry
observe_group p wall observation none e = (
  record e {
    metrics = record (e.metrics) { unknown_model_total = u64 (e.metrics.unknown_model_total + 1) };
  },
  not_handled,
)
observe_group p wall observation (some group) e =
    let o = normalized_observation wall observation in
    observe_locked p wall o group (lookup_entry o.auth_index o.auth_id group e) e

-- `ObserveUsage`
unfoldable pub observe_usage :
    Parsers → Time → UsageObservation → Engine → Engine × ObservationResult
unfolding observe_group is_antigravity_provider classify_model
observe_usage p wall observation e =
    let r = observe_group p wall observation (classify_model observation.model) e in
    if is_antigravity_provider observation.provider then r else (e, not_handled)
