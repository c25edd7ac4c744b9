-- ===== src/Guard/Pick.antt =====
-- internal/guard/pick.go: the choice among the scheduler's candidates, and the half-open probe.
use cpa_antigravity_quota_gu.Prelude.{
  ℕ, suc, ◌+◌, ◌-◌, ◌*◌, ◌/◌, ◌%◌, Bool, ◌&&◌, ◌||◌, not, Option, none, some, List, [], ◌∷◌, ltb,
  leb, ◌==◌, if◌then◌else◌, ℤ, pos, negsuc, max_int64, u64, Text, is_empty, trim_space, lookup,
  insert, length, get_elem?,
}
use cpa_antigravity_quota_gu.Guard.Types.{
  Time, Duration, second, is_zero, add_time, sub_time, ModelGroup, group_text, group_valid,
  half_open, manual_probe, Mode, unset_mode, observe, enforce, other_mode, is_enforce, is_observe,
  Policy, is_fail_open, Error, invalid_identity, half_open_pending, half_open_active, requires_open,
  Fallible, returns, fails,
}
use cpa_antigravity_quota_gu.Guard.Records.{
  Config, Entry, Candidate, PickRequest, ErrorCode, model_cooldown, quota_group_unknown,
  auth_unknown, auth_uninitialized, no_eligible_auth, PickResult, empty_pick,
}
use cpa_antigravity_quota_gu.Guard.Classify.{
  classify_model, route_includes_antigravity, group_enforced,
}
use cpa_antigravity_quota_gu.Guard.Engine.{Engine, entry_key, mark_dirty, or_policy}
use cpa_antigravity_quota_gu.Guard.Breaker.{is_opened, is_half_open, or_wall}
use cpa_antigravity_quota_gu.Guard.Candidates.{
  PickCandidate, Scan, candidate_is_antigravity, empty_scan, scan,
}

-- An int64 that a sum of two others is reduced to.
abbrev wrap_int64 : ℤ → ℤ
wrap_int64 (pos n) = if leb n max_int64 then pos n else negsuc (2 * max_int64 + 1 - n)
wrap_int64 (negsuc n) = negsuc n

-- `x / time.Second * time.Second`: Go's division goes towards zero.
abbrev whole_seconds : ℤ → ℤ
whole_seconds (pos n) = pos (n / second * second)
whole_seconds (negsuc n) =
    let m = suc n / second * second in if m == 0 then pos 0 else negsuc (m - 1)

abbrev plus_almost_second : ℤ → ℤ
plus_almost_second (pos n) = wrap_int64 (pos (n + (second - 1)))
plus_almost_second (negsuc n) =
    if ltb n (second - 1) then pos (second - 2 - n) else negsuc (n - (second - 1))

-- `retryAfter`
unfoldable pub retry_after : Time → Time → Duration
unfolding sub_time
retry_after now recover_at =
    if is_zero recover_at || not (ltb now recover_at)
    then pos 0
    else whole_seconds (plus_almost_second (sub_time recover_at now))

abbrev pub all_cooling : Scan → Bool
all_cooling s = ltb 0 s.blocked_cooling && s.blocked_missing == 0 && s.blocked_uninitialized == 0

unfoldable pub blocked_code : Scan → ErrorCode
blocked_code s =
    if all_cooling s
    then model_cooldown
    else if ltb 0 s.blocked_missing
    then auth_unknown
    else if ltb 0 s.blocked_uninitialized
    then auth_uninitialized
    else no_eligible_auth

abbrev count_fail_closed : Mode → Engine → Engine
count_fail_closed mode e =
    if is_enforce mode
    then record e {
      metrics = record (e.metrics) { fail_closed_total = u64 (e.metrics.fail_closed_total + 1) };
    }
    else e

-- The branch where no candidate is available.
unfoldable pub pick_none : PickRequest → ModelGroup → Scan → Engine → Engine × PickResult
unfolding retry_after blocked_code
pick_none request group s e = (
  count_fail_closed request.mode e,
  record empty_pick {
    group = some group;
    excluded = s.excluded;
    observe_only = is_observe request.mode;
    all_cooling = all_cooling s;
    retry_after = retry_after request.now s.earliest;
    error_code = blocked_code s;
    handled = is_enforce request.mode;
  },
)

abbrev cursor_of : Option ℕ → ℕ
cursor_of none = 0
cursor_of (some n) = n

-- `e.cursors[group]`
unfoldable pub cursor : ModelGroup → Engine → ℕ
unfolding lookup
cursor group e = cursor_of (lookup (group_text group) e.cursors)

-- The lease that an enforced choice takes on an entry that recovers.
unfoldable pub lease_entry : PickRequest → Config → Entry → Entry
unfolding trim_space
lease_entry request config entry = record entry {
  state = half_open;
  half_open_started_at = request.now;
  half_open_lease_until = add_time request.now config.half_open_lease;
  half_open_request_id = trim_space request.request_id;
}

abbrev take_found : Time → PickRequest → Option (Text × Entry) → Engine → Engine
take_found wall request none e = e
take_found wall request (some (key, entry)) e = mark_dirty wall request.now (record e {
  entries = insert key (lease_entry request e.config entry) e.entries;
  metrics = record (e.metrics) {
    half_open_attempt_total = u64 (e.metrics.half_open_attempt_total + 1);
  };
})

unfoldable pub take_lease : Time → PickRequest → PickCandidate → Engine → Engine
unfolding lease_entry mark_dirty insert
take_lease wall request selected e =
    if selected.needs_lease then take_found wall request selected.found e else e

unfoldable pub advance_cursor : ModelGroup → Engine → Engine
unfolding cursor insert
advance_cursor group e = record e {
  cursors = insert (group_text group) (u64 (cursor group e + 1)) e.cursors;
}

-- The branch where a candidate is selected.
unfoldable pub pick_selected :
    Time → PickRequest → ModelGroup → Scan → PickCandidate → Engine → Engine × PickResult
unfolding take_lease advance_cursor
pick_selected wall request group s selected e =
    let result = record empty_pick {
      group = some group;
      excluded = s.excluded;
      observe_only = is_observe request.mode;
      selected_auth_id = selected.candidate.auth_id;
      selected_auth_index = selected.candidate.auth_index;
      handled = is_enforce request.mode;
    } in
    (
      (if is_enforce request.mode
          then take_lease wall request selected (advance_cursor group e)
          else e),
      result,
    )

-- `available[int(cursor % uint64(len(available)))]`
unfoldable pub select_available : ModelGroup → Scan → Engine → Option PickCandidate
unfolding cursor
select_available group s e = get_elem? s.available (cursor group e % length s.available)

abbrev pick_from :
    Time → PickRequest → ModelGroup → Scan → Option PickCandidate → Engine → Engine × PickResult
pick_from wall request group s none e = pick_none request group s e
pick_from wall request group s (some selected) e = pick_selected wall request group s selected e

abbrev pub count_scan : Scan → Engine → Engine
count_scan s e = record e {
  metrics = record (e.metrics) {
    unknown_auth_total = u64 (e.metrics.unknown_auth_total + s.unknown_auth);
    scheduler_excluded_total = u64 (e.metrics.scheduler_excluded_total + s.excluded);
  };
}

-- From the loop over the candidates on. Selecting from an empty list gives `none`.
unfoldable pub pick_group : Time → PickRequest → ModelGroup → Policy → Engine → Engine × PickResult
unfolding scan pick_none pick_selected select_available
pick_group wall request group policy e =
    let s = scan wall request e group policy request.candidates empty_scan in
    pick_from wall request group s (select_available group s e) (count_scan s e)

unfoldable pub non_antigravity : PickRequest → List Candidate → List Candidate
unfolding candidate_is_antigravity
non_antigravity request [] = []
non_antigravity request (c ∷ cs) =
    let rest = non_antigravity request cs in
    if candidate_is_antigravity request c then rest else c ∷ rest

unfoldable pub count_antigravity : PickRequest → List Candidate → ℕ
unfolding candidate_is_antigravity
count_antigravity request [] = 0
count_antigravity request (c ∷ cs) =
    (if candidate_is_antigravity request c then 1 else 0) + count_antigravity request cs

unfoldable pub pick_other : PickRequest → ℕ → List Candidate → Engine → Engine × PickResult
pick_other request excluded [] e = (
  count_fail_closed request.mode e,
  record empty_pick {
    observe_only = is_observe request.mode;
    error_code = quota_group_unknown;
    excluded = excluded;
    handled = is_enforce request.mode;
  },
)
pick_other request excluded (c ∷ _) e = (
  e,
  record empty_pick {
    observe_only = is_observe request.mode;
    excluded = excluded;
    selected_auth_id = c.auth_id;
    selected_auth_index = c.auth_index;
    handled = is_enforce request.mode;
  },
)

-- `pickUnknownModelLocked`
unfoldable pub pick_unknown_model : PickRequest → Policy → Engine → Engine × PickResult
unfolding pick_other non_antigravity count_antigravity
pick_unknown_model request policy e =
    let excluded = count_antigravity request request.candidates in
    let counted = record e {
      metrics = record (e.metrics) {
        scheduler_excluded_total = u64 (e.metrics.scheduler_excluded_total + excluded);
      };
    } in
    let r = pick_other request excluded (non_antigravity request request.candidates) counted in
    if is_fail_open policy
    then (
      e,
      record empty_pick {
        observe_only = is_observe request.mode;
        error_code = quota_group_unknown;
      },
    )
    else r

unfoldable pub pick_classified :
    Time → PickRequest → Option ModelGroup → Engine → Engine × PickResult
unfolding pick_group pick_unknown_model group_enforced
pick_classified wall request none e =
    pick_unknown_model request
      (or_policy request.unknown_model_policy e.config.unknown_model_policy)
      (record e {
        metrics = record (e.metrics) {
          unknown_model_total = u64 (e.metrics.unknown_model_total + 1);
        };
      })
pick_classified wall request (some group) e =
    let policy = or_policy request.unknown_auth_policy e.config.unknown_auth_policy in
    let r = pick_group wall request group policy e in
    if group_enforced group request.enforced_groups
    then r
    else (e, record empty_pick { group = some group })

-- What `Pick` does under the lock, before its deferred function.
unfoldable pub pick_locked : Time → PickRequest → Engine → Engine × PickResult
unfolding pick_classified classify_model
pick_locked wall request e = pick_classified wall request (classify_model request.model) (record e {
  metrics = record (e.metrics) { scheduler_pick_total = u64 (e.metrics.scheduler_pick_total + 1) };
})

abbrev or_observe : Mode → Mode
or_observe unset_mode = observe
or_observe observe = observe
or_observe enforce = enforce
or_observe (other_mode s) = other_mode s

-- The deferred function: the latency and the last selection.
unfoldable pub record_pick : PickRequest → ℕ → Engine × PickResult → Engine × PickResult
unfolding trim_space
record_pick request latency (e, result) = (
  record e {
    metrics = record (e.metrics) { scheduler_latency_micros = latency };
    last_pick = some (record {
      at = request.now;
      request_id = trim_space request.request_id;
      provider = trim_space request.provider;
      providers = request.providers;
      model = trim_space request.model;
      model_group = result.group;
      mode = request.mode;
      selected_auth_id = result.selected_auth_id;
      selected_auth_index = result.selected_auth_index;
      handled = result.handled;
      observe_only = result.observe_only;
      error_code = result.error_code;
      excluded = result.excluded;
    });
  },
  result,
)

abbrev pub normalized_request : Time → PickRequest → PickRequest
normalized_request wall request = record request {
  now = or_wall wall request.now;
  mode = or_observe request.mode;
}

-- `Pick`; `latency` is what the metrics record, in microseconds.
unfoldable pub pick : Time → ℕ → PickRequest → Engine → Engine × PickResult
unfolding record_pick pick_locked route_includes_antigravity
pick wall latency request e =
    let r = normalized_request wall request in
    if route_includes_antigravity r
    then record_pick r latency (pick_locked wall r e)
    else (e, empty_pick)

-- The errors of `ManualHalfOpen` for an entry, in the order of its tests.
unfoldable pub manual_refusal : Entry → Time → Option Error
manual_refusal entry now =
    if is_half_open entry.state && is_zero entry.half_open_lease_until
    then some half_open_pending
    else if is_half_open entry.state && ltb now entry.half_open_lease_until
    then some half_open_active
    else if not (is_opened entry.state) && not (is_half_open entry.state)
    then some requires_open
    else none

unfoldable pub manual_entry : Entry → Entry
manual_entry entry = record entry {
  state = half_open;
  reason = manual_probe;
  half_open_started_at = 0;
  half_open_lease_until = 0;
  half_open_request_id = [];
}

unfoldable pub manual_found : Time → Time → Text → Option Entry → Engine → Fallible (Engine × Time)
unfolding manual_refusal manual_entry mark_dirty insert
manual_found wall now key none e = fails invalid_identity
manual_found wall now key (some entry) e = elim (manual_refusal entry now) [
  | some refused ↦ fails refused
  | none ↦
      returns (
        mark_dirty wall now (record e { entries = insert key (manual_entry entry) e.entries }),
        now,
      )
]

-- `ManualHalfOpen`
unfoldable pub manual_half_open :
    Time → Text → ModelGroup → Time → Engine → Fallible (Engine × Time)
unfolding manual_found entry_key trim_space lookup
manual_half_open wall auth_index group now e =
    let key = entry_key (trim_space auth_index) group in
    if is_empty (trim_space auth_index) || not (group_valid group)
    then fails invalid_identity
    else manual_found wall (or_wall wall now) key (lookup key e.entries) e
