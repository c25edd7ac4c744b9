-- ===== src/Guard/Selection.antt =====
-- internal/guard/pick.go: which candidates the loop of Pick makes available, and which it counts out.
pub mod Retry
pub mod Serving
pub mod Lease
pub mod Pure
pub mod Outcome
use cpa_antigravity_quota_gu.Prelude.{
  ℕ, suc, ◌+◌, ◌≡◌, refl, sym, subst, Bool, true, false, ◌&&◌, ◌⊎◌, inl, inr, Option, none, some,
  List, [], ◌∷◌, ◌++◌, arith, Text, lookup, All, Any, All-Any, All-append, Option-cases, Bool-cases,
  length, length-append, not, is_empty, text_eq, trim_space, if◌then◌else◌,
}
use cpa_antigravity_quota_gu.Guard.Types.{
  Time, State, uninitialized, closed, opened, half_open, other_state, ModelGroup, Policy,
  is_fail_open,
}
use cpa_antigravity_quota_gu.Guard.Records.{Config, Entry, Candidate, PickRequest}
use cpa_antigravity_quota_gu.Guard.Engine.{Engine, entry_key}
use cpa_antigravity_quota_gu.Guard.Observe.{lookup_entry, lookup_index}
use cpa_antigravity_quota_gu.Guard.Status.{evidence_fresh}
use cpa_antigravity_quota_gu.Guard.Candidates.{
  PickCandidate, Scan, candidate_is_antigravity, normalized_candidate, recovered, lease_over,
  needs_fresh, scan_state, scan_entry, scan_candidate, scan, admit, empty_scan,
}

-- The lookup gives the entry that stands under the key it gives.
pub lookup_entry-lookup :
    (index id : Text) (g : ModelGroup) (e : Engine) (k : Text) (x : Entry)
    → lookup_entry index id g e ≡ some (k, x)
    → lookup k e.entries ≡ some x
unfolding lookup_entry
lookup_entry-lookup index id g e k x h = ground arith

module _ (wall : Time) (request : PickRequest) (e : Engine) (group : ModelGroup)
    (policy : Policy) where
  abbrev pub IsFresh : Entry → Type 0
  IsFresh x = evidence_fresh wall x request.now e.config.evidence_max_age ≡ true

  -- An entry that may serve a request, and whether the request takes a lease on it.
  abbrev pub Usable : State → Entry → Bool → Type 0
  Usable closed x lease = IsFresh x × (lease ≡ false)
  Usable opened x lease = (recovered x request.now ≡ true) × (lease ≡ true)
  Usable half_open x lease = (lease_over x request.now ≡ true) × (lease ≡ true)
  Usable uninitialized x lease = IsFresh x × (is_fail_open policy ≡ true) × (lease ≡ false)
  Usable (other_state _) x lease = ⊥

  abbrev pub AdmitsEntry : Candidate → PickCandidate → Option (Text × Entry) → Type 0
  AdmitsEntry c p none = (is_fail_open policy ≡ true) × (p.candidate ≡ c) × (p.needs_lease ≡ false)
  AdmitsEntry c p (some (k, x)) =
      (p.candidate ≡ normalized_candidate c x) × Usable x.state x p.needs_lease

  -- Why a candidate is available: it is none of Antigravity, or its entry is usable, or it has no
  -- entry under a policy that lets it pass.
  pub data Admits (c : Candidate) (p : PickCandidate) : Type 0 where
    foreign :
        candidate_is_antigravity request c ≡ false
        → p.candidate ≡ c
        → p.found ≡ none
        → p.needs_lease ≡ false
        → Admits c p
    guarded :
        candidate_is_antigravity request c ≡ true
        → lookup_entry c.auth_index c.auth_id group e ≡ p.found
        → AdmitsEntry c p p.found
        → Admits c p

  -- The candidate is one of the request's.
  abbrev pub Listed : Candidate → Type 0
  Listed c = Any (λ d. d ≡ c) request.candidates

  abbrev pub Admitted : PickCandidate → Type 0
  Admitted p = (c : Candidate) × Listed c × Admits c p

  abbrev pub AllAdmitted : Scan → Type 0
  AllAdmitted s = All Admitted s.available

  admit-AllAdmitted :
      (c : Candidate) (p : PickCandidate) (s : Scan)
      → Listed c
      → Admits c p
      → AllAdmitted s
      → AllAdmitted (admit p s)
  admit-AllAdmitted c p s l h k = All-append Admitted s.available (p ∷ []) k ((c, l, h), tt)

  module _ (c : Candidate) (k : Text) (x : Entry) (s : Scan) (listed : Listed c)
      (ours : candidate_is_antigravity request c ≡ true)
      (located : lookup_entry c.auth_index c.auth_id group e ≡ some (k, x))
      (rest : AllAdmitted s) where
    admit-Usable :
        (t : State) (lease : Bool)
        → x.state ≡ t
        → Usable t x lease
        → AllAdmitted (
            admit
              (record {
                candidate = normalized_candidate c x;
                found = some (k, x);
                needs_lease = lease;
              })
              s)
    admit-Usable t lease e h =
        admit-AllAdmitted c _ s listed
          (guarded ours located (refl, subst (λ u. Usable u x lease) (sym e) h)) rest

    scan_state-AllAdmitted :
        (t : State)
        → x.state ≡ t
        → ((needs_fresh t ≡ true) → IsFresh x)
        → AllAdmitted (scan_state t request.now policy c k x s)
    unfolding scan_state
    scan_state-AllAdmitted closed e f = admit-Usable closed false e (f refl, refl)
    scan_state-AllAdmitted opened e f = elim (Bool-cases (recovered x request.now)) [
      | inl r ↦ rw r (admit-Usable opened true e (r, refl))
      | inr r ↦ rw r rest
    ]
    scan_state-AllAdmitted half_open e f = elim (Bool-cases (lease_over x request.now)) [
      | inl r ↦ rw r (admit-Usable half_open true e (r, refl))
      | inr r ↦ rw r rest
    ]
    scan_state-AllAdmitted uninitialized e f = elim (Bool-cases (is_fail_open policy)) [
      | inl r ↦ rw r (admit-Usable uninitialized false e (f refl, r, refl))
      | inr r ↦ rw r rest
    ]
    scan_state-AllAdmitted (other_state _) e f = rest

  scan_entry-AllAdmitted :
      (c : Candidate) (found : Option (Text × Entry)) (s : Scan)
      → Listed c
      → candidate_is_antigravity request c ≡ true
      → lookup_entry c.auth_index c.auth_id group e ≡ found
      → AllAdmitted s
      → AllAdmitted (scan_entry wall request.now e.config policy c found s)
  unfolding scan_entry
  scan_entry-AllAdmitted c none s listed ours located rest =
      elim (Bool-cases (is_fail_open policy)) [
        | inl r ↦ rw r (admit-AllAdmitted c _ s listed (guarded ours located (r, refl, refl)) rest)
        | inr r ↦ rw r rest
      ]
  scan_entry-AllAdmitted c (some (k, x)) s listed ours located rest =
      elim (Bool-cases (
        needs_fresh x.state && not (evidence_fresh wall x request.now e.config.evidence_max_age))) [
          | inl stale ↦ rw stale rest
          | inr well ↦ rw well (
              scan_state-AllAdmitted c k x s listed ours located rest x.state refl
                (λ h. ground arith))
        ]

  scan_candidate-AllAdmitted :
      (c : Candidate) (s : Scan)
      → Listed c
      → AllAdmitted s
      → AllAdmitted (scan_candidate wall request e group policy c s)
  unfolding scan_candidate
  scan_candidate-AllAdmitted c s listed rest =
      elim (Bool-cases (candidate_is_antigravity request c)) [
        | inl ours ↦ rw ours (scan_entry-AllAdmitted c _ s listed ours refl rest)
        | inr other ↦ rw other (admit-AllAdmitted c _ s listed (foreign other refl refl refl) rest)
      ]

  scan-AllListed :
      (cs : List Candidate) (s : Scan)
      → All Listed cs
      → AllAdmitted s
      → AllAdmitted (scan wall request e group policy cs s)
  unfolding scan
  scan-AllListed [] s listed rest = rest
  scan-AllListed (c ∷ cs) s (l, ls) rest =
      scan-AllListed cs (scan_candidate wall request e group policy c s) ls
        (scan_candidate-AllAdmitted c s l rest)

  -- The loop makes a candidate available only where it admits it.
  pub scan-AllAdmitted :
      AllAdmitted (scan wall request e group policy request.candidates empty_scan)
  scan-AllAdmitted = scan-AllListed request.candidates empty_scan (All-Any request.candidates) tt

  abbrev total : Scan → ℕ
  total s = length s.available + s.excluded

  total-scan_state :
      (t : State) (c : Candidate) (k : Text) (x : Entry) (s : Scan)
      → total (scan_state t request.now policy c k x s) ≡ total s + 1
  unfolding scan_state
  total-scan_state t c k x s = grind (arith, length-append)

  total-scan_entry :
      (c : Candidate) (found : Option (Text × Entry)) (s : Scan)
      → total (scan_entry wall request.now e.config policy c found s) ≡ total s + 1
  unfolding scan_entry
  total-scan_entry c none s = grind (arith, length-append)
  total-scan_entry c (some (k, x)) s = ground (arith, total-scan_state x.state c k x s)

  total-scan_candidate :
      (c : Candidate) (s : Scan)
      → total (scan_candidate wall request e group policy c s) ≡ total s + 1
  unfolding scan_candidate
  total-scan_candidate c s =
      grind
        (arith, total-scan_entry c (lookup_entry c.auth_index c.auth_id group e) s, length-append)

  -- Each candidate is either available or excluded.
  pub total-scan :
      (cs : List Candidate) (s : Scan)
      → let s' = scan wall request e group policy cs s in total s' ≡ total s + length cs
  unfolding scan
  total-scan [] s = omega arith
  total-scan (c ∷ cs) s = omega (
    arith,
    total-scan_candidate c s,
    total-scan cs (scan_candidate wall request e group policy c s),
  )
