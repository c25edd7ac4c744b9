-- ===== src/Guard/Selection/Serving.antt =====
-- internal/guard/pick.go: a request is served as long as one candidate is usable.
use cpa_antigravity_quota_gu.Prelude.{
  ℕ, ◌≤◌, ◌<◌, ◌≡◌, refl, Bool, true, false, ◌&&◌, not, inl, inr, Option, none, some, List, [], ◌∷◌,
  arith, Text, Bool-cases, length, length-append, ap, subst, get_elem?, zero, suc, some_injective,
}
use cpa_antigravity_quota_gu.Guard.Types.{
  Time, State, uninitialized, closed, opened, half_open, other_state, ModelGroup, Policy,
}
use cpa_antigravity_quota_gu.Guard.Records.{Entry, Candidate, PickRequest, no_code}
use cpa_antigravity_quota_gu.Guard.Engine.{Engine}
use cpa_antigravity_quota_gu.Guard.Observe.{lookup_entry}
use cpa_antigravity_quota_gu.Guard.Status.{evidence_fresh}
use cpa_antigravity_quota_gu.Guard.Candidates.{
  Scan, candidate_is_antigravity, needs_fresh, scan_state, scan_entry, scan_candidate, scan,
  empty_scan,
}
use cpa_antigravity_quota_gu.Guard.Pick.{
  pick_group, pick_selected, record_pick, normalized_request, pick,
}
use cpa_antigravity_quota_gu.Guard.Selection.{Usable}
use cpa_antigravity_quota_gu.Guard.Selection.Outcome.{
  IsGuarded, auth_policy, counted_pick, pick-pick_group, scanned, select_cases,
}

module _ (wall : Time) (request : PickRequest) (e : Engine) (group : ModelGroup)
    (policy : Policy) where
  abbrev available : Scan → ℕ
  available s = length s.available

  available-scan_state :
      (t : State) (c : Candidate) (k : Text) (x : Entry) (s : Scan)
      → available s ≤ available (scan_state t request.now policy c k x s)
  unfolding scan_state
  available-scan_state t c k x s = grind (arith, length-append)

  available-scan_candidate :
      (c : Candidate) (s : Scan)
      → available s ≤ available (scan_candidate wall request e group policy c s)
  unfolding scan_candidate scan_entry
  available-scan_candidate c s = elim (Bool-cases (candidate_is_antigravity request c)) [
    | inl ours ↦ rw ours (go (lookup_entry c.auth_index c.auth_id group e))
    | inr other ↦ rw other (grind (arith, length-append))
  ]
    where
      go :
          (found : Option (Text × Entry))
          → available s ≤ available (scan_entry wall request.now e.config policy c found s)
      go none = grind (arith, length-append)
      go (some (k, x)) = ground (arith, available-scan_state x.state c k x s)

  available-scan :
      (cs : List Candidate) (s : Scan)
      → available s ≤ available (scan wall request e group policy cs s)
  unfolding scan
  available-scan [] s = omega arith
  available-scan (c ∷ cs) s = omega (
    arith,
    available-scan_candidate c s,
    available-scan cs (scan_candidate wall request e group policy c s),
  )

  -- A candidate of Antigravity whose entry may serve the request.
  pub record Serves (c : Candidate) : Type 0 where
    pub ours : candidate_is_antigravity request c ≡ true
    pub key : Text
    pub entry : Entry
    pub lease : Bool
    pub located : lookup_entry c.auth_index c.auth_id group e ≡ some (key, entry)
    pub usable : Usable wall request e group policy entry.state entry lease

  Usable-fresh :
      (t : State) (x : Entry) (lease : Bool)
      → Usable wall request e group policy t x lease
      → (needs_fresh t && not (evidence_fresh wall x request.now e.config.evidence_max_age)) ≡ false
  Usable-fresh closed x lease u = ground arith
  Usable-fresh opened x lease u = refl
  Usable-fresh half_open x lease u = refl
  Usable-fresh uninitialized x lease u = ground arith
  Usable-fresh (other_state _) x lease u = absurd u

  scan_state-Usable :
      (t : State) (c : Candidate) (k : Text) (x : Entry) (lease : Bool) (s : Scan)
      → Usable wall request e group policy t x lease
      → available s < available (scan_state t request.now policy c k x s)
  unfolding scan_state
  scan_state-Usable closed c k x lease s u = grind (arith, length-append)
  scan_state-Usable opened c k x lease s u = rw u.0 (grind (arith, length-append))
  scan_state-Usable half_open c k x lease s u = rw u.0 (grind (arith, length-append))
  scan_state-Usable (other_state _) c k x lease s u = absurd u
  scan_state-Usable uninitialized c k x lease s u = rw u.1 (grind (arith, length-append))

  scan_candidate-Serves :
      (c : Candidate) (s : Scan)
      → Serves c
      → available s < available (scan_candidate wall request e group policy c s)
  unfolding scan_candidate scan_entry
  scan_candidate-Serves c s h =
      let x = h.entry in
      rw (h.ours, h.located, Usable-fresh x.state x h.lease h.usable)
        (scan_state-Usable x.state c h.key x h.lease s h.usable)

  scan-Serves :
      (cs : List Candidate) (i : ℕ) (c : Candidate) (s : Scan)
      → get_elem? cs i ≡ some c
      → Serves c
      → available s < available (scan wall request e group policy cs s)
  unfolding scan
  scan-Serves [] i c s at h = cc
  scan-Serves (d ∷ cs) zero c s at h = omega (
    arith,
    scan_candidate-Serves d s (subst Serves (some_injective (cc)) h),
    available-scan cs (scan_candidate wall request e group policy d s),
  )
  scan-Serves (d ∷ cs) (suc i) c s at h = omega (
    arith,
    available-scan_candidate d s,
    scan-Serves cs i c (scan_candidate wall request e group policy d s) at h,
  )

  pick_group-Serves :
      (i : ℕ) (c : Candidate)
      → get_elem? request.candidates i ≡ some c
      → Serves c
      → (pick_group wall request group policy e).1.error_code ≡ no_code
  unfolding pick_group pick_selected
  pick_group-Serves i c at h =
      let s = scanned wall request e group policy in
      elim (select_cases wall request e group policy s) [
        | inl (empty, missing) ↦
            absurd
              (omega (arith, ap length empty, scan-Serves request.candidates i c empty_scan at h))
        | inr (p, chosen, found, some_left) ↦ rw chosen refl
      ]

-- A guarded request is not refused while the entry of one of its candidates is usable: closed
-- with fresh evidence, open and past its recovery time, half-open with no lease that runs, or, if
-- the policy fails open, uninitialized with fresh evidence.
pub pick-Serves :
    (wall : Time) (latency : ℕ) (request : PickRequest) (group : ModelGroup) (e : Engine)
    → let r = normalized_request wall request in
      (i : ℕ) (c : Candidate)
      → IsGuarded r group
      → get_elem? request.candidates i ≡ some c
      → Serves wall r (counted_pick e) group (auth_policy r e) c
      → (pick wall latency request e).1.error_code ≡ no_code
unfolding record_pick
pick-Serves wall latency request group e i c g at h =
    let r = normalized_request wall request in
    rw (pick-pick_group wall latency request group e g)
      (pick_group-Serves wall r (counted_pick e) group (auth_policy r e) i c at h)
