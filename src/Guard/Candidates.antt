-- ===== src/Guard/Candidates.antt =====
-- internal/guard/pick.go: the loop over the candidates of a request.
use cpa_antigravity_quota_gu.Prelude.{
  ℕ, ◌+◌, Bool, true, false, ◌&&◌, ◌||◌, not, Option, none, some, List, [], ◌∷◌, ◌++◌, ltb,
  if◌then◌else◌, Text, is_empty, trim_space,
}
use cpa_antigravity_quota_gu.Guard.Types.{
  Time, is_zero, ModelGroup, State, uninitialized, closed, opened, half_open, other_state, Policy,
  is_fail_open,
}
use cpa_antigravity_quota_gu.Guard.Records.{Config, Entry, Candidate, PickRequest}
use cpa_antigravity_quota_gu.Guard.Classify.{is_antigravity_provider}
use cpa_antigravity_quota_gu.Guard.Engine.{Engine}
use cpa_antigravity_quota_gu.Guard.Breaker.{is_closed, is_uninitialized}
use cpa_antigravity_quota_gu.Guard.Observe.{lookup_entry}
use cpa_antigravity_quota_gu.Guard.Status.{evidence_fresh, earlier_non_zero}

-- `pickCandidate`; the pointer to the entry is its key with the entry.
pub record PickCandidate : Type 0 where
  pub candidate : Candidate
  pub found : Option (Text × Entry)
  pub needs_lease : Bool

-- The variables of the loop over the candidates; `unknown_auth` counts into the metrics.
pub record Scan : Type 0 where
  pub available : List PickCandidate
  pub excluded : ℕ
  pub blocked_cooling : ℕ
  pub blocked_missing : ℕ
  pub blocked_uninitialized : ℕ
  pub earliest : Time
  pub unknown_auth : ℕ

abbrev pub empty_scan : Scan
empty_scan = record {
  available = [];
  excluded = 0;
  blocked_cooling = 0;
  blocked_missing = 0;
  blocked_uninitialized = 0;
  earliest = 0;
  unknown_auth = 0;
}

-- No provider of the route is another than Antigravity; blank ones do not count.
unfoldable pub only_antigravity : List Text → Bool
unfolding is_antigravity_provider trim_space
only_antigravity [] = true
only_antigravity (p ∷ ps) =
    (is_empty (trim_space p) || is_antigravity_provider p) && only_antigravity ps

unfoldable pub candidate_is_antigravity : PickRequest → Candidate → Bool
unfolding is_antigravity_provider only_antigravity
candidate_is_antigravity request candidate =
    if not (is_empty candidate.provider)
    then is_antigravity_provider candidate.provider
    else is_antigravity_provider request.provider && only_antigravity request.providers

unfoldable pub normalized_candidate : Candidate → Entry → Candidate
normalized_candidate candidate entry = record candidate {
  auth_id = if is_empty candidate.auth_id then entry.auth_id else candidate.auth_id;
  auth_index = if is_empty candidate.auth_index then entry.auth_index else candidate.auth_index;
}

-- `available = append(available, …)`
abbrev pub admit : PickCandidate → Scan → Scan
admit c s = record s { available = s.available ++ (c ∷ []) }

abbrev admit_entry : Candidate → Text → Entry → Bool → Scan → Scan
admit_entry candidate key entry needs_lease = admit (record {
  candidate = normalized_candidate candidate entry;
  found = some (key, entry);
  needs_lease = needs_lease;
})

abbrev block_cooling : Time → Scan → Scan
block_cooling until s = record s {
  excluded = s.excluded + 1;
  blocked_cooling = s.blocked_cooling + 1;
  earliest = earlier_non_zero s.earliest until;
}

abbrev block_uninitialized : Scan → Scan
block_uninitialized s = record s {
  excluded = s.excluded + 1;
  blocked_uninitialized = s.blocked_uninitialized + 1;
}

-- The test of an open entry whose recovery time has come, and of a lease that is absent or over.
abbrev pub recovered : Entry → Time → Bool
recovered entry now = not (is_zero entry.recover_at) && not (ltb now entry.recover_at)

abbrev pub lease_over : Entry → Time → Bool
lease_over entry now =
    is_zero entry.half_open_lease_until || not (ltb now entry.half_open_lease_until)

-- The switch on the entry's state.
unfoldable pub scan_state : State → Time → Policy → Candidate → Text → Entry → Scan → Scan
unfolding normalized_candidate earlier_non_zero
scan_state closed now policy c key entry s = admit_entry c key entry false s
scan_state opened now policy c key entry s =
    if recovered entry now then admit_entry c key entry true s else block_cooling entry.recover_at s
scan_state half_open now policy c key entry s =
    if lease_over entry now
    then admit_entry c key entry true s
    else block_cooling entry.half_open_lease_until s
scan_state uninitialized now policy c key entry s =
    if is_fail_open policy then admit_entry c key entry false s else block_uninitialized s
scan_state (other_state _) now policy c key entry s = block_uninitialized s

abbrev pub needs_fresh : State → Bool
needs_fresh s = is_closed s || is_uninitialized s

-- A candidate of Antigravity, with what the lookup of its entry gives.
unfoldable pub scan_entry :
    Time → Time → Config → Policy → Candidate → Option (Text × Entry) → Scan → Scan
unfolding evidence_fresh scan_state
scan_entry wall now config policy c none s =
    let s' = record s { unknown_auth = s.unknown_auth + 1 } in
    if is_fail_open policy
    then admit (record { candidate = c; found = none; needs_lease = false }) s'
    else record s' { excluded = s.excluded + 1; blocked_missing = s.blocked_missing + 1 }
scan_entry wall now config policy c (some (key, entry)) s =
    if needs_fresh entry.state && not (evidence_fresh wall entry now config.evidence_max_age)
    then record s { excluded = s.excluded + 1 }
    else scan_state entry.state now policy c key entry s

unfoldable pub scan_candidate :
    Time → PickRequest → Engine → ModelGroup → Policy → Candidate → Scan → Scan
unfolding scan_entry candidate_is_antigravity lookup_entry
scan_candidate wall request e group policy c s =
    if candidate_is_antigravity request c
    then scan_entry wall request.now e.config policy c (lookup_entry c.auth_index c.auth_id group e)
        s
    else admit (record { candidate = c; found = none; needs_lease = false }) s

unfoldable pub scan :
    Time → PickRequest → Engine → ModelGroup → Policy → List Candidate → Scan → Scan
unfolding scan_candidate
scan wall request e group policy [] s = s
scan wall request e group policy (c ∷ cs) s =
    scan wall request e group policy cs (scan_candidate wall request e group policy c s)
