-- ===== src/Evidence/Exclusive.antt =====
-- internal/evidence/evidence.go: fresh evidence of an account takes the place of what was stored.
use cpa_antigravity_quota_gu.Prelude.{
  ◌≡◌, ◌≢◌, refl, sym, subst, ◌⊎◌, true, false, ◌&&◌, ◌||◌, not, lookup, inl, inr, Option, none,
  some, List, [], ◌∷◌, ◌++◌, arith, Bool-cases, Text, text_eq, text_eq_iff, is_empty, Dict, All,
  All-append, Bool, if◌then◌else◌,
}
use cpa_antigravity_quota_gu.Priority.Quota.{PlanQuotaEvidence, present}
use cpa_antigravity_quota_gu.Priority.Items.{Credential}
use cpa_antigravity_quota_gu.Evidence.Records.{
  is_ready, is_historical, ProbeResult, ObservationKind, observation_wrong_group, observation_fresh,
  observation_historical, observation_invalid, observation_failed, Round, ProbeObservation,
  HistoricalObservation, Observation, Input,
}
use cpa_antigravity_quota_gu.Evidence.Checks.{
  known_credentials, is_known, failed_observation, quota_observation, quota_evidence_from_probe,
  wrong_group_observation, historical_auth_index, historical_model_group,
}
use cpa_antigravity_quota_gu.Evidence.Classify.{
  remove_historical, ProbeScan, note, note_failed, no_scan, stored_failure, see_other_round,
  see_this_round, see_probe, scan_probes, scan_historical, see_failure, scan_failures, classify,
}

-- A stored observation is of another account than the evidence.
abbrev pub Apart : Observation → PlanQuotaEvidence → Type 0
Apart o q = is_historical o.kind ≡ true → ¬ (q.auth_index ≡ o.auth_index)

abbrev pub Exclusive : List PlanQuotaEvidence → List Observation → Type 0
Exclusive qs os = All (λ o. All (Apart o) qs) os

All-Apart :
    (o : Observation) (qs : List PlanQuotaEvidence)
    → is_historical o.kind ≡ false
    → All (Apart o) qs
All-Apart o [] h = tt
All-Apart o (q ∷ qs) h = (λ e. absurd (cc), All-Apart o qs h)

-- One more observation that is not a stored one.
Exclusive-append :
    (qs : List PlanQuotaEvidence) (os : List Observation) (o : Observation)
    → is_historical o.kind ≡ false
    → Exclusive qs os
    → Exclusive qs (os ++ (o ∷ []))
Exclusive-append qs os o h e =
    All-append (λ o. All (Apart o) qs) os (o ∷ []) e (All-Apart o qs h, tt)

remove_historical-Exclusive :
    (qs : List PlanQuotaEvidence) (q : PlanQuotaEvidence) (os : List Observation)
    → Exclusive qs os
    → Exclusive (qs ++ (q ∷ [])) (remove_historical q.auth_index os)
unfolding remove_historical
remove_historical-Exclusive qs q [] h = tt
remove_historical-Exclusive qs q (o ∷ os) (h, hs) =
    let rest = remove_historical-Exclusive qs q os hs in
    elim (Bool-cases (text_eq o.auth_index q.auth_index && is_historical o.kind)) [
      | inl removed ↦ rw removed rest
      | inr kept ↦ rw kept (
        All-append (Apart o) qs (q ∷ []) h
            (λ stored same. absurd (ground (arith, text_eq_iff o.auth_index q.auth_index)), tt),
        rest,
      )
    ]

abbrev Settled : ProbeScan → Type 0
Settled s = Exclusive s.result.eligible s.result.observations

note_failed-Settled : (r : ProbeResult) (s : ProbeScan) → Settled s → Settled (note_failed r s)
note_failed-Settled r s h = elim (Bool-cases (is_ready r.status)) [
  | inl e ↦ rw e (
      Exclusive-append s.result.eligible s.result.observations
        (failed_observation r observation_invalid) refl h)
  | inr e ↦ rw e (
      Exclusive-append s.result.eligible s.result.observations
        (failed_observation r observation_failed) refl h)
]

see_this_round-Settled :
    (r : ProbeResult) (o : Option PlanQuotaEvidence) (s : ProbeScan)
    → ((q : PlanQuotaEvidence) → o ≡ some q → r.auth_index ≡ q.auth_index)
    → Settled s
    → Settled (see_this_round r o s)
unfolding see_this_round
see_this_round-Settled r none s e h = note_failed-Settled r s h
see_this_round-Settled r (some q) s e h = elim (Bool-cases (is_ready r.status)) [
  | inr f ↦ rw f (
      Exclusive-append s.result.eligible s.result.observations
        (failed_observation r observation_failed) refl h)
  | inl t ↦ rw t (
      rw (e q refl) (
        Exclusive-append (s.result.eligible ++ (q ∷ []))
          (remove_historical q.auth_index s.result.observations)
          (quota_observation observation_fresh q) refl
          (remove_historical-Exclusive s.result.eligible q s.result.observations h)))
]

probe_index :
    (r : ProbeResult) (group : Text) (q : PlanQuotaEvidence)
    → quota_evidence_from_probe r group ≡ some q
    → r.auth_index ≡ q.auth_index
unfolding quota_evidence_from_probe
probe_index r group q h = ground arith

second_Settled : (b : Bool) (x y : ProbeScan) → b ≡ false → Settled y → Settled (if b then x else y)
second_Settled true x y f h = cc
second_Settled false x y f h = h

see_other_round-Settled :
    (r : ProbeResult) (o : Option PlanQuotaEvidence) (s : ProbeScan)
    → is_ready r.status ≡ false
    → Settled s
    → Settled (see_other_round r o s)
unfolding see_other_round
see_other_round-Settled r none s f h = note_failed-Settled r s h
see_other_round-Settled r (some q) s f h =
    second_Settled (is_ready r.status)
      (note (quota_observation observation_historical q) observation_historical r.auth_index s)
      (note_failed r s) f (note_failed-Settled r s h)

-- What one turn of the second loop does.
see_probe-cases :
    (known : Dict Credential) (round : Round) (p : ProbeObservation) (s : ProbeScan)
    → let r = p.result in
      let o = quota_evidence_from_probe r round.model_group in
      (see_probe known round p s ≡ s)
      ⊎ (see_probe known round p s
          ≡ note (wrong_group_observation r) observation_wrong_group r.auth_index s)
      ⊎ ((p.round_id ≢ round.id) × (see_probe known round p s ≡ see_other_round r o s))
      ⊎ (see_probe known round p s ≡ see_this_round r o s)
unfolding see_probe
see_probe-cases known round p s = ground (arith, text_eq_iff p.round_id round.id)

-- The result is of the round, or it is not a ready one.
abbrev pub IsCurrent : Round → ProbeObservation → Type 0
IsCurrent round p = (p.round_id ≡ round.id) ⊎ (is_ready p.result.status ≡ false)

see_probe-Settled :
    (known : Dict Credential) (round : Round) (p : ProbeObservation) (s : ProbeScan)
    → IsCurrent round p
    → Settled s
    → Settled (see_probe known round p s)
see_probe-Settled known round p s current h =
    let r = p.result in
    let o = quota_evidence_from_probe r round.model_group in
    elim (see_probe-cases known round p s) [
      | inl e ↦ subst Settled (sym e) h
      | inr (inl e) ↦ subst Settled (sym e) (
          Exclusive-append s.result.eligible s.result.observations (wrong_group_observation r) refl
            h)
      | inr (inr (inl (other, e))) ↦ subst Settled (sym e) (elim current [
        | inl same ↦ absurd (other same)
        | inr failed ↦ see_other_round-Settled r o s failed h
      ])
      | inr (inr (inr e)) ↦
          subst Settled (sym e) (see_this_round-Settled r o s (probe_index r round.model_group) h)
    ]

scan_probes-Settled :
    (known : Dict Credential) (round : Round) (ps : List ProbeObservation) (s : ProbeScan)
    → All (IsCurrent round) ps
    → Settled s
    → Settled (scan_probes known round ps s)
unfolding scan_probes
scan_probes-Settled known round [] s r h = h
scan_probes-Settled known round (p ∷ ps) s (r, rs) h =
    scan_probes-Settled known round ps (see_probe known round p s) rs
      (see_probe-Settled known round p s r h)

see_failure-Exclusive :
    (known : Dict Credential) (round : Round) (current : Dict ObservationKind)
    → (qs : List PlanQuotaEvidence) (h : HistoricalObservation) (os : List Observation)
    → Exclusive qs os
    → Exclusive qs (see_failure known round current h os)
unfolding see_failure
see_failure-Exclusive known round current qs h os e =
    let x = historical_auth_index h in
    elim (Bool-cases (
      is_empty h.last_error
      || is_empty x
      || not (text_eq (historical_model_group h) round.model_group))) [
        | inl t ↦ rw t e
        | inr passed ↦ rw passed (elim (Bool-cases (is_known known x)) [
          | inr t ↦ rw t e
          | inl listed ↦ rw listed (elim (Bool-cases (present (lookup x current))) [
            | inl t ↦ rw t e
            | inr absent ↦ rw absent (Exclusive-append qs os (stored_failure h) refl e)
          ])
        ])
      ]

scan_failures-Exclusive :
    (known : Dict Credential) (round : Round) (current : Dict ObservationKind)
    → (qs : List PlanQuotaEvidence) (hs : List HistoricalObservation) (os : List Observation)
    → Exclusive qs os
    → Exclusive qs (scan_failures known round current hs os)
unfolding scan_failures
scan_failures-Exclusive known round current qs [] os e = e
scan_failures-Exclusive known round current qs (h ∷ hs) os e =
    scan_failures-Exclusive known round current qs hs (see_failure known round current h os)
      (see_failure-Exclusive known round current qs h os e)

no_evidence-Exclusive : (os : List Observation) → Exclusive [] os
no_evidence-Exclusive [] = tt
no_evidence-Exclusive (o ∷ os) = (tt, no_evidence-Exclusive os)

-- When every ready result that Classify is given is of the round itself, it returns no observation of
-- kind historical for an account that has eligible evidence; failed results may be of any round.
pub classify-Exclusive :
    (i : Input)
    → All (IsCurrent i.round) i.probes
    → Exclusive (classify i).eligible (classify i).observations
unfolding classify
classify-Exclusive i r =
    let known = known_credentials i.credentials in
    let os = scan_historical known i.round i.historical [] in
    let s = scan_probes known i.round i.probes (no_scan os) in
    scan_failures-Exclusive known i.round s.current_auth_indexes s.result.eligible i.historical
      s.result.observations
      (scan_probes-Settled known i.round i.probes (no_scan os) r (no_evidence-Exclusive os))
