-- ===== src/Guard/Status.antt =====
-- internal/guard/status.go: freshness of evidence, readiness, metrics and the snapshot.
-- A map of Go is walked in the order of its association list.
use cpa_antigravity_quota_gu.Prelude.{
  ℕ, ◌+◌, Bool, true, false, ◌&&◌, ◌||◌, not, Option, none, some, List, [], ◌∷◌, ◌++◌, ltb,
  if◌then◌else◌, ℤ, pos, leb_ℤ, eq_ℤ, Text, codes, text_eq, text_lt, Dict, lookup, insert,
}
use cpa_antigravity_quota_gu.Guard.Types.{
  Time, Duration, minute, is_zero, add_time, sub_time, ModelGroup, gemini, claude_gpt, group_text,
  group_eq,
}
use cpa_antigravity_quota_gu.Guard.Records.{Entry, Metrics, Snapshot}
use cpa_antigravity_quota_gu.Guard.Engine.{Engine}
use cpa_antigravity_quota_gu.Guard.Entries.{sorted_entries}
use cpa_antigravity_quota_gu.Guard.Breaker.{or_wall, is_cooling, is_half_open, is_uninitialized}

pub record Readiness : Type 0 where
  pub ready : Bool
  pub uniform_priority : Bool
  pub priority : ℤ
  pub reasons : List Text

-- `EvidenceFresh`
unfoldable pub evidence_fresh : Time → Entry → Time → Duration → Bool
unfolding sub_time
evidence_fresh wall entry now max_age =
    let n = or_wall wall now in
    let observed_at = entry.last_quota_evidence_at in
    not (leb_ℤ max_age (pos 0))
    && not (is_zero observed_at)
    && leb_ℤ (sub_time n observed_at) max_age
    && not (ltb (add_time n (pos minute)) observed_at)

-- The priority of the first entry, and whether all others have it too.
unfoldable pub priorities_agree : ℤ → Dict Entry → Bool
priorities_agree p [] = true
priorities_agree p ((_, x) ∷ m) = eq_ℤ p x.priority && priorities_agree p m

abbrev first_priority : Dict Entry → ℤ
first_priority [] = pos 0
first_priority ((_, x) ∷ m) = x.priority

unfoldable pub common_priority : Dict Entry → ℤ × Bool
unfolding priorities_agree
common_priority [] = (pos 0, false)
common_priority ((_, x) ∷ m) =
    if priorities_agree x.priority m then (x.priority, true) else (pos 0, false)

-- `UniformPriority`
unfoldable pub uniform_priority : Engine → ℤ × Bool
unfolding common_priority
uniform_priority e = common_priority e.entries

-- An entry of the group that is uninitialized, or fresh.
unfoldable pub any_uninitialized : ModelGroup → Dict Entry → Bool
unfolding group_eq
any_uninitialized g [] = false
any_uninitialized g ((_, x) ∷ m) =
    (group_eq x.model_group g && is_uninitialized x.state) || any_uninitialized g m

unfoldable pub any_fresh : Time → Time → Duration → ModelGroup → Dict Entry → Bool
unfolding group_eq evidence_fresh
any_fresh wall now max_age g [] = false
any_fresh wall now max_age g ((_, x) ∷ m) =
    (group_eq x.model_group g && evidence_fresh wall x now max_age)
    || any_fresh wall now max_age g m

-- `groupsByIndex[index][group]`
unfoldable pub has_group : Text → ModelGroup → Dict Entry → Bool
unfolding group_eq text_eq
has_group index g [] = false
has_group index g ((_, x) ∷ m) =
    (text_eq x.auth_index index && group_eq x.model_group g) || has_group index g m

-- The keys of `groupsByIndex`, each once.
unfoldable pub listed : Text → List Text → Bool
unfolding text_eq
listed k [] = false
listed k (j ∷ js) = text_eq j k || listed k js

unfoldable pub indexes : Dict Entry → List Text
unfolding listed
indexes [] = []
indexes ((_, x) ∷ m) =
    let rest = indexes m in if listed x.auth_index rest then rest else x.auth_index ∷ rest

abbrev group_reason : Time → Time → Duration → Dict Entry → ModelGroup → List Text
group_reason wall now max_age entries g =
    if any_fresh wall now max_age g entries
    then []
    else if any_uninitialized g entries
    then (codes "uninitialized:" ++ group_text g) ∷ []
    else (codes "stale_evidence:" ++ group_text g) ∷ []

abbrev missing_reason : Dict Entry → Text → ModelGroup → List Text
missing_reason entries index g =
    if has_group index g entries
    then []
    else (codes "missing_group:" ++ (index ++ (codes ":" ++ group_text g))) ∷ []

unfoldable pub missing_reasons : Dict Entry → List Text → List Text
unfolding has_group
missing_reasons entries [] = []
missing_reasons entries (index ∷ rest) =
    missing_reason entries index gemini
    ++ (missing_reason entries index claude_gpt ++ missing_reasons entries rest)

abbrev empty_reason : Dict Entry → List Text
empty_reason [] = codes "empty_roster" ∷ []
empty_reason (_ ∷ _) = []

abbrev priority_reason : Bool → List Text
priority_reason true = []
priority_reason false = codes "non_uniform_priority" ∷ []

-- sort.Strings, as insertion.
unfoldable pub insert_text : Text → List Text → List Text
unfolding text_lt
insert_text x [] = x ∷ []
insert_text x (y ∷ ys) = if text_lt y x then y ∷ insert_text x ys else x ∷ y ∷ ys

unfoldable pub sort_texts : List Text → List Text
unfolding insert_text
sort_texts [] = []
sort_texts (x ∷ xs) = insert_text x (sort_texts xs)

-- The reasons in the order in which `Ready` appends them.
unfoldable pub ready_reasons : Time → Time → Duration → Dict Entry → List Text
unfolding any_fresh any_uninitialized missing_reasons indexes priorities_agree
ready_reasons wall now max_age entries =
    empty_reason entries
    ++ (group_reason wall now max_age entries gemini
        ++ (group_reason wall now max_age entries claude_gpt
            ++ (missing_reasons entries (indexes entries)
                ++ priority_reason (priorities_agree (first_priority entries) entries))))

abbrev no_reasons : List Text → Bool
no_reasons [] = true
no_reasons (_ ∷ _) = false

-- `Ready`
unfoldable pub ready : Time → Time → Duration → Engine → Readiness
unfolding ready_reasons sort_texts
ready wall now max_age e =
    let n = or_wall wall now in
    let age = if leb_ℤ max_age (pos 0) then e.config.evidence_max_age else max_age in
    let reasons = sort_texts (ready_reasons wall n age e.entries) in
    record {
      ready = no_reasons reasons;
      uniform_priority = priorities_agree (first_priority e.entries) e.entries;
      priority = first_priority e.entries;
      reasons = reasons;
    }

unfoldable pub is_dirty : Engine → Bool
is_dirty e = ltb 0 e.dirty

abbrev one_if : Bool → ℕ
one_if true = 1
one_if false = 0

unfoldable pub count_cooling : Dict Entry → ℕ
count_cooling [] = 0
count_cooling ((_, x) ∷ m) = one_if (is_cooling x.state) + count_cooling m

unfoldable pub count_stale : Time → Time → Duration → Dict Entry → ℕ
unfolding evidence_fresh
count_stale wall now max_age [] = 0
count_stale wall now max_age ((_, x) ∷ m) =
    one_if (not (evidence_fresh wall x now max_age)) + count_stale wall now max_age m

-- `metricsLocked`
unfoldable pub metrics_locked : Time → Time → Engine → Metrics
unfolding count_cooling count_stale
metrics_locked wall now e = record (e.metrics) {
  cooldown_open = count_cooling e.entries;
  quota_evidence_stale = count_stale wall now e.config.evidence_max_age e.entries;
  usage_event_dirty_backlog = e.dirty;
}

-- `earlierNonZero` of pick.go.
unfoldable pub earlier_non_zero : Time → Time → Time
earlier_non_zero current candidate =
    if is_zero candidate
    then current
    else if is_zero current || ltb candidate current
    then candidate
    else current

abbrev time_or_zero : Option Time → Time
time_or_zero none = 0
time_or_zero (some t) = t

-- `boundary` in `Snapshot`.
abbrev pub boundary : Entry → Time
boundary x = if is_half_open x.state then x.half_open_lease_until else x.recover_at

unfoldable pub earliest_recover : Dict Time → Dict Entry → Dict Time
unfolding earlier_non_zero lookup insert
earliest_recover acc [] = acc
earliest_recover acc ((_, x) ∷ m) =
    let k = group_text x.model_group in
    earliest_recover
      (if is_cooling x.state
        then insert k (earlier_non_zero (time_or_zero (lookup k acc)) (boundary x)) acc
        else acc)
      m

-- `Snapshot`
unfoldable pub snapshot : Time → Time → Engine → Snapshot
unfolding metrics_locked earliest_recover sorted_entries
snapshot wall now e =
    let n = or_wall wall now in
    record {
      generated_at = n;
      entries = sorted_entries e.entries;
      earliest_recover = earliest_recover [] e.entries;
      metrics = metrics_locked wall n e;
      last_selection = e.last_pick;
    }
