-- ===== src/Guard/Selection/Outcome.antt =====
-- internal/guard/pick.go: what Pick answers, and what it leaves of the engine.
use cpa_antigravity_quota_gu.Prelude.{
  ℕ, suc, ◌+◌, ◌%◌, ◌<◌, u64, ◌≡◌, refl, ap, ◌≢◌, true, ◌⊎◌, inl, inr, none, some, List, [], ◌∷◌,
  arith, All-get_elem?, get_elem?, get_elem?_total, length,
}
use cpa_antigravity_quota_gu.Guard.Types.{Time, ModelGroup, is_enforce, Policy}
use cpa_antigravity_quota_gu.Guard.Records.{no_code, PickRequest, PickResult}
use cpa_antigravity_quota_gu.Guard.Classify.{
  classify_model, route_includes_antigravity, group_enforced,
}
use cpa_antigravity_quota_gu.Guard.Engine.{Engine, or_policy}
use cpa_antigravity_quota_gu.Guard.Candidates.{PickCandidate, Scan, empty_scan, scan}
use cpa_antigravity_quota_gu.Guard.Pick.{
  blocked_code, pick_none, pick_selected, select_available, pick_group, pick_classified,
  pick_locked, record_pick, normalized_request, pick, cursor,
}
use cpa_antigravity_quota_gu.Guard.Selection.{Admitted, scan-AllAdmitted, total-scan}

-- The candidates that a request finds available.
abbrev pub scanned : Time → PickRequest → Engine → ModelGroup → Policy → Scan
scanned wall request e group policy = scan wall request e group policy request.candidates empty_scan

-- Nothing is selected: an error says why, and every candidate was excluded.
pub record Blocked (request : PickRequest) (r : PickResult) : Type 0 where
  pub no_id : r.selected_auth_id ≡ []
  pub no_index : r.selected_auth_index ≡ []
  pub coded : r.error_code ≢ no_code
  pub excluded_all : r.excluded ≡ length request.candidates
  pub answered : r.handled ≡ is_enforce request.mode

-- An available candidate is selected, and at least it was not excluded.
pub record Selected (request : PickRequest) (p : PickCandidate) (r : PickResult) : Type 0 where
  pub id : r.selected_auth_id ≡ p.candidate.auth_id
  pub index : r.selected_auth_index ≡ p.candidate.auth_index
  pub coded : r.error_code ≡ no_code
  pub excluded_rest : r.excluded < length request.candidates
  pub answered : r.handled ≡ is_enforce request.mode

blocked_code-ne-no_code : (s : Scan) → blocked_code s ≢ no_code
unfolding blocked_code
blocked_code-ne-no_code s = ground arith

module _ (wall : Time) (request : PickRequest) (e : Engine) (group : ModelGroup)
    (policy : Policy) where
  abbrev pub Outcome : PickResult → Type 0
  Outcome r =
      Blocked request r
      ⊎ ((p : PickCandidate) × Admitted wall request e group policy p × Selected request p r)

  pub select_cases :
      (s : Scan)
      → ((s.available ≡ []) × (select_available group s e ≡ none))
        ⊎ ((p : PickCandidate) × (select_available group s e ≡ some p)
            × (get_elem? s.available (cursor group e % length s.available) ≡ some p)
            × (0 < length s.available))
  unfolding select_available
  select_cases s = go s.available refl
    where
      go :
          (xs : List PickCandidate)
          → s.available ≡ xs
          → ((s.available ≡ []) × (select_available group s e ≡ none))
            ⊎ ((p : PickCandidate) × (select_available group s e ≡ some p)
                × (get_elem? s.available (cursor group e % length s.available) ≡ some p)
                × (0 < length s.available))
      go [] h = inl (h, rw h refl)
      go (x ∷ xs) h =
          let (p, found) =
            get_elem?_total (x ∷ xs) (cursor group e % suc (length xs)) (omega arith) in
          inr (p, rw h found, rw h found, rw h (omega arith))

  pub pick_group-Outcome : Outcome (pick_group wall request group policy e).1
  unfolding pick_group pick_none pick_selected
  pick_group-Outcome =
      let s = scanned wall request e group policy in
      let counts = total-scan wall request e group policy request.candidates empty_scan in
      elim (select_cases s) [
        | inl (empty, missing) ↦ rw missing (
            inl (record {
              no_id = refl;
              no_index = refl;
              coded = blocked_code-ne-no_code s;
              excluded_all = omega (arith, ap length empty, counts);
              answered = refl;
            }))
        | inr (p, chosen, found, some_left) ↦ rw chosen (
            inr (
              p,
              All-get_elem? (Admitted wall request e group policy) s.available _ p
                  (scan-AllAdmitted wall request e group policy) found,
              record {
                id = refl;
                index = refl;
                coded = refl;
                excluded_rest = omega (arith, counts);
                answered = refl;
              },
            ))
      ]

-- The policy for unknown identities that a request meets.
abbrev pub auth_policy : PickRequest → Engine → Policy
auth_policy request e = or_policy request.unknown_auth_policy e.config.unknown_auth_policy

-- A request that Pick guards: its route has Antigravity, and its model an enforced group.
pub record IsGuarded (request : PickRequest) (group : ModelGroup) : Type 0 where
  pub routed : route_includes_antigravity request ≡ true
  pub grouped : classify_model request.model ≡ some group
  pub enforced : group_enforced group request.enforced_groups ≡ true

-- The counter that Pick moves first.
abbrev pub counted_pick : Engine → Engine
counted_pick e = record e {
  metrics = record (e.metrics) { scheduler_pick_total = u64 (e.metrics.scheduler_pick_total + 1) };
}

module _ (wall : Time) (latency : ℕ) (request : PickRequest) (group : ModelGroup) (e : Engine) where
  -- Pick is the choice in the group, with the deferred record behind it.
  pub pick-pick_group :
      let r = normalized_request wall request in
      IsGuarded r group
      → pick wall latency request e
        ≡ record_pick r latency (pick_group wall r group (auth_policy r e) (counted_pick e))
  unfolding pick pick_locked pick_classified
  pick-pick_group g = rw (g.routed, g.grouped, g.enforced)

  -- A guarded request is either blocked, with an error code and every candidate excluded, or it
  -- gets one of its own candidates, which the breaker admits: one of another provider, one whose entry is usable
  -- at the time of the request, or one without an entry under a policy that fails open.
  pub pick-Outcome :
      let r = normalized_request wall request in
      IsGuarded r group
      → Outcome wall r (counted_pick e) group (auth_policy r e) (pick wall latency request e).1
  unfolding record_pick
  pick-Outcome g = rw (pick-pick_group g) (
      pick_group-Outcome wall (normalized_request wall request) (counted_pick e) group
        (auth_policy (normalized_request wall request) e))
