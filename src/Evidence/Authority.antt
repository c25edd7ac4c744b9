-- ===== src/Evidence/Authority.antt =====
-- internal/evidence/evidence.go: what Classify hands to the planner, against a plain description.
use cpa_antigravity_quota_gu.Prelude.{
  ℕ, suc, subst, append_nil, append_assoc, All, get_elem?, ◌≡◌, refl, sym, ap, ◌∙◌, Bool, true,
  false, ◌&&◌, ◌||◌, inl, inr, some, List, [], ◌∷◌, ◌++◌, if◌then◌else◌, arith, Bool-cases, Text,
  text_eq, text_eq_iff, Dict, lookup, insert, lookup-insert,
}
use cpa_antigravity_quota_gu.Priority.Quota.{PlanQuotaEvidence, present}
use cpa_antigravity_quota_gu.Priority.Items.{Credential}
use cpa_antigravity_quota_gu.Evidence.Records.{is_ready, Round, ProbeObservation, Input}
use cpa_antigravity_quota_gu.Evidence.Checks.{
  known_into, known_credentials, is_known, valid_quota_evidence, probe_quota,
  quota_evidence_from_probe,
}
use cpa_antigravity_quota_gu.Evidence.Classify.{
  ProbeScan, no_scan, see_other_round, see_this_round, see_probe, scan_probes, scan_historical,
  classify,
}

-- The account is in the inventory.
abbrev pub in_inventory : List Credential → Text → Bool
in_inventory [] auth_index = false
in_inventory (c ∷ cs) auth_index = text_eq c.auth_index auth_index || in_inventory cs auth_index

-- A ready result of the round, for its group and a known account, that is valid evidence.
abbrev pub grants : Bool → Round → ProbeObservation → Bool
grants known round p =
    known
    && text_eq p.round_id round.id
    && is_ready p.result.status
    && valid_quota_evidence (probe_quota p.result) round.model_group

-- What the probes that grant authority carry, in their order.
unfoldable pub granted_evidence :
    List Credential → Round → List ProbeObservation → List PlanQuotaEvidence
unfolding text_eq valid_quota_evidence
granted_evidence cs round [] = []
granted_evidence cs round (p ∷ ps) =
    let rest = granted_evidence cs round ps in
    if grants (in_inventory cs p.result.auth_index) round p
    then probe_quota p.result ∷ rest
    else rest

known_into-in_inventory :
    (m : Dict Credential) (cs : List Credential) (x : Text)
    → is_known (known_into m cs) x ≡ (is_known m x || in_inventory cs x)
unfolding known_into
known_into-in_inventory m [] x = ground arith
known_into-in_inventory m (c ∷ cs) x = ground (
  arith,
  known_into-in_inventory (insert c.auth_index c m) cs x,
  lookup-insert c.auth_index x c m,
)

pub known_credentials-in_inventory :
    (cs : List Credential) (x : Text) → is_known (known_credentials cs) x ≡ in_inventory cs x
unfolding known_credentials lookup
known_credentials-in_inventory cs x = known_into-in_inventory [] cs x

see_probe-eligible :
    (known : Dict Credential) (round : Round) (p : ProbeObservation) (s : ProbeScan)
    → (see_probe known round p s).result.eligible ≡ (
        if grants (is_known known p.result.auth_index) round p
        then s.result.eligible ++ (probe_quota p.result ∷ [])
        else s.result.eligible)
unfolding see_probe see_other_round see_this_round quota_evidence_from_probe valid_quota_evidence
see_probe-eligible known round p s = ground arith

scan_probes-eligible :
    (cs : List Credential) (round : Round) (ps : List ProbeObservation) (s : ProbeScan)
    → (scan_probes (known_credentials cs) round ps s).result.eligible
      ≡ s.result.eligible ++ granted_evidence cs round ps
unfolding scan_probes granted_evidence
scan_probes-eligible cs round [] s = sym (append_nil s.result.eligible)
scan_probes-eligible cs round (p ∷ ps) s =
    let known = known_credentials cs in
    let t = see_probe known round p s in
    scan_probes-eligible cs round ps t
    ∙ ap (λ es. es ++ granted_evidence cs round ps)
        (see_probe-eligible known round p s
          ∙ ap
              (λ k.
                if grants k round p
                then s.result.eligible ++ (probe_quota p.result ∷ [])
                else s.result.eligible)
              (known_credentials-in_inventory cs p.result.auth_index))
    ∙ elim (Bool-cases (grants (in_inventory cs p.result.auth_index) round p)) [
      | inl yes_granted ↦ rw yes_granted (
          append_assoc s.result.eligible (probe_quota p.result ∷ []) (granted_evidence cs round ps))
      | inr refused ↦ rw refused refl
    ]

-- The evidence that Classify makes eligible is what the valid ready results of exactly this round
-- and group carry, for accounts of the inventory, each once and in the order of the probes; stored
-- observations have no part in it.
pub classify-eligible :
    (i : Input) → (classify i).eligible ≡ granted_evidence i.credentials i.round i.probes
unfolding classify
classify-eligible i =
    let known = known_credentials i.credentials in
    scan_probes-eligible i.credentials i.round i.probes
      (no_scan (scan_historical known i.round i.historical []))

-- A probe of the list that has the authority to change the account.
pub record Authorized (i : Input) (q : PlanQuotaEvidence) : Type 0 where
  pub place : ℕ
  pub probe : ProbeObservation
  pub listed : get_elem? i.probes place ≡ some probe
  pub of_round : probe.round_id ≡ i.round.id
  pub of_group : probe.result.model_group ≡ i.round.model_group
  pub ready : is_ready probe.result.status ≡ true
  pub carried : q ≡ probe_quota probe.result
  pub complete : (present q.reset_at && present q.remaining) ≡ true
  pub known : in_inventory i.credentials q.auth_index ≡ true

module _ (i : Input) where
  granted_evidence-Authorized :
      (ps : List ProbeObservation)
      → ((n : ℕ) (p : ProbeObservation)
          → get_elem? ps n ≡ some p
          → (k : ℕ) × (get_elem? i.probes k ≡ some p))
      → All (Authorized i) (granted_evidence i.credentials i.round ps)
  unfolding granted_evidence valid_quota_evidence
  granted_evidence-Authorized [] r = tt
  granted_evidence-Authorized (p ∷ ps) r =
      let rest = granted_evidence-Authorized ps (λ n q at. r (suc n) q at) in
      let known = in_inventory i.credentials p.result.auth_index in
      let valid = valid_quota_evidence (probe_quota p.result) i.round.model_group in
      elim (Bool-cases (grants known i.round p)) [
        | inl granted ↦
            let (k, at) = r 0 p refl in
            rw granted (
              record {
                place = k;
                probe = p;
                listed = at;
                of_round = (text_eq_iff p.round_id i.round.id).0 (ground arith);
                of_group = (text_eq_iff p.result.model_group i.round.model_group).0 (ground arith);
                ready = ground arith;
                carried = refl;
                complete = ground arith;
                known = ground arith;
              },
              rest,
            )
        | inr refused ↦ rw refused rest
      ]

  pub classify-Authorized : All (Authorized i) (classify i).eligible
  classify-Authorized =
      subst (All (Authorized i)) (sym (classify-eligible i))
        (granted_evidence-Authorized i.probes (λ n p at. (n, at)))
