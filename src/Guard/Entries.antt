-- ===== src/Guard/Entries.antt =====
-- internal/guard/engine.go: new entries, their equality and their order.
use cpa_antigravity_quota_gu.Prelude.{
  Bool, true, false, ◌&&◌, ◌||◌, not, Option, none, some, List, [], ◌∷◌, ◌==◌, if◌then◌else◌, pos,
  eq_ℤ, text_eq, text_lt, Dict, lookup, length,
}
use cpa_antigravity_quota_gu.Guard.Types.{
  ModelGroup, group_text, group_eq, uninitialized, state_eq, no_reason, reason_eq, Float64, pos_inf,
  neg_inf, finite,
}
use cpa_antigravity_quota_gu.Guard.Records.{Identity, Entry}

unfoldable pub new_entry : Identity → ModelGroup → Entry
new_entry i group = record {
  auth_id = i.auth_id;
  auth_index = i.auth_index;
  identity_fingerprint = i.identity_fingerprint;
  provider = i.provider;
  priority = i.priority;
  model_group = group;
  state = uninitialized;
  reason = no_reason;
  opened_at = 0;
  recover_at = 0;
  reset_at = 0;
  failure_count = pos 0;
  last_failure_at = 0;
  half_open_started_at = 0;
  half_open_lease_until = 0;
  last_evidence_source = [];
  last_evidence_at = 0;
  last_quota_evidence_at = 0;
  remaining_percent = none;
  half_open_request_id = [];
}

unfoldable pub float_eq : Float64 → Float64 → Bool
float_eq (finite a) (finite b) = eq_ℤ a b
float_eq pos_inf pos_inf = true
float_eq neg_inf neg_inf = true
float_eq _ _ = false

unfoldable pub remaining_equal : Option Float64 → Option Float64 → Bool
unfolding float_eq
remaining_equal none none = true
remaining_equal none (some _) = false
remaining_equal (some _) none = false
remaining_equal (some a) (some b) = float_eq a b

-- The tests of the first disjunction of `entryEqual`, in three parts.
unfoldable pub identity_differs : Entry → Entry → Bool
unfolding text_eq group_eq
identity_differs a b =
    not (text_eq a.auth_id b.auth_id)
    || not (text_eq a.auth_index b.auth_index)
    || not (text_eq a.identity_fingerprint b.identity_fingerprint)
    || not (text_eq a.provider b.provider)
    || not (eq_ℤ a.priority b.priority)
    || not (group_eq a.model_group b.model_group)

unfoldable pub breaker_differs : Entry → Entry → Bool
unfolding state_eq reason_eq
breaker_differs a b =
    not (state_eq a.state b.state)
    || not (reason_eq a.reason b.reason)
    || not (a.opened_at == b.opened_at)
    || not (a.recover_at == b.recover_at)
    || not (a.reset_at == b.reset_at)

unfoldable pub history_differs : Entry → Entry → Bool
unfolding text_eq
history_differs a b =
    not (eq_ℤ a.failure_count b.failure_count)
    || not (a.last_failure_at == b.last_failure_at)
    || not (a.half_open_started_at == b.half_open_started_at)
    || not (a.half_open_lease_until == b.half_open_lease_until)
    || not (text_eq a.last_evidence_source b.last_evidence_source)
    || not (a.last_evidence_at == b.last_evidence_at)

unfoldable pub entry_equal : Entry → Entry → Bool
unfolding identity_differs breaker_differs history_differs text_eq remaining_equal
entry_equal a b =
    not (identity_differs a b || breaker_differs a b || history_differs a b)
    && text_eq a.half_open_request_id b.half_open_request_id
    && a.last_quota_evidence_at == b.last_quota_evidence_at
    && remaining_equal a.remaining_percent b.remaining_percent

-- The loop of `entriesEqual` over the left map.
unfoldable pub entries_within : Dict Entry → Dict Entry → Bool
entries_within [] right = true
entries_within ((key, a) ∷ left) right =
    (elim (lookup key right) [ none ↦ false | some b ↦ entry_equal a b ])
    && entries_within left right

unfoldable pub entries_equal : Dict Entry → Dict Entry → Bool
unfolding entries_within
entries_equal left right = length left == length right && entries_within left right

-- The order of `sortedEntries`: by index, then by group.
unfoldable pub entry_less : Entry → Entry → Bool
unfolding text_eq text_lt
entry_less a b =
    if not (text_eq a.auth_index b.auth_index)
    then text_lt a.auth_index b.auth_index
    else text_lt (group_text a.model_group) (group_text b.model_group)

-- sort.Slice, as insertion; the keys of a map's entries are distinct, so the result is the one
-- sorted list.
unfoldable pub insert_sorted : Entry → List Entry → List Entry
unfolding entry_less
insert_sorted x [] = x ∷ []
insert_sorted x (y ∷ ys) = if entry_less y x then y ∷ insert_sorted x ys else x ∷ y ∷ ys

unfoldable pub sorted_entries : Dict Entry → List Entry
unfolding insert_sorted
sorted_entries [] = []
sorted_entries ((_, x) ∷ m) = insert_sorted x (sorted_entries m)
