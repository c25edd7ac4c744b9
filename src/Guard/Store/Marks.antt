-- ===== src/Guard/Store/Marks.antt =====
-- internal/guard: an operation that changes an entry moves the generation on.
use cpa_antigravity_quota_gu.Prelude.{
  ℕ, ◌+◌, ◌≡◌, refl, ap, ◌∙◌, subst, inl, inr, ◌||◌, trim_space, Option, none, some, [], ◌∷◌, arith,
  u64, Text, Dict, lookup, insert, text_eq, text_eq_iff, Bool-cases, Option-cases,
}
use cpa_antigravity_quota_gu.Guard.Types.{Time, ModelGroup, Policy, is_enforce}
use cpa_antigravity_quota_gu.Guard.Records.{Entry, UsageObservation, QuotaEvidence, PickRequest}
use cpa_antigravity_quota_gu.Guard.Reset.{Parsers}
use cpa_antigravity_quota_gu.Guard.Engine.{Engine, mark_dirty, entry_key}
use cpa_antigravity_quota_gu.Guard.Entries.{entry_equal}
use cpa_antigravity_quota_gu.Guard.Classify.{
  classify_model, is_antigravity_provider, route_includes_antigravity, group_enforced,
}
use cpa_antigravity_quota_gu.Guard.Breaker.{commit, is_outdated}
use cpa_antigravity_quota_gu.Guard.Observe.{
  observe_locked, observe_group, observe_usage, observe_entry, observe_metrics, is_fenced,
  normalized_observation,
}
use cpa_antigravity_quota_gu.Guard.Evidence.{
  evidence_locked, evidence_metrics, evidence_mismatch, apply_evidence, apply_quota_evidence,
  evidence_invalid, normalized_evidence,
}
use cpa_antigravity_quota_gu.Guard.Candidates.{PickCandidate}
use cpa_antigravity_quota_gu.Guard.Pick.{
  take_lease, advance_cursor, count_scan, select_available, pick_none, pick_selected, pick_group,
  pick_classified, pick_locked, record_pick, normalized_request, pick,
}
use cpa_antigravity_quota_gu.Guard.Selection.{lookup_entry-lookup}
use cpa_antigravity_quota_gu.Guard.Selection.Outcome.{scanned, auth_policy, counted_pick}
use cpa_antigravity_quota_gu.Guard.Selection.Pure.{counted_model, pick_unknown_model-SameBreaker}
use cpa_antigravity_quota_gu.Guard.Edits.{after}
use cpa_antigravity_quota_gu.Guard.Store.Equality.{entry_equal_sound}

-- Assigning a key the value that it has changes nothing.
insert_same : (k : Text) (x : Entry) (m : Dict Entry) → lookup k m ≡ some x → insert k x m ≡ m
unfolding lookup insert
insert_same k x [] h = cc
insert_same k x ((j, y) ∷ m) h = elim (Bool-cases (text_eq j k)) [
  | inl e ↦ rw e (ground (arith, text_eq_iff j k))
  | inr e ↦ rw e (ap (λ r. (j, y) ∷ r) (insert_same k x m (ground arith)))
]

-- A part of an operation that leaves the entries and the generation, or moves the generation on.
pub data Marks (e e' : Engine) : Type 0 where
  unmarked : e'.entries ≡ e.entries → e'.generation ≡ e.generation → Marks e e'
  marked : e'.generation ≡ u64 (e.generation + 1) → Marks e e'

commit-Marks :
    (wall at : Time) (k : Text) (x y : Entry) (e : Engine)
    → lookup k e.entries ≡ some x
    → Marks e (commit wall at k x y e)
unfolding commit mark_dirty
commit-Marks wall at k x y e h = elim (Bool-cases (entry_equal x y)) [
  | inl same ↦ rw same (
      unmarked
        (subst (λ z. insert k z e.entries ≡ e.entries) (entry_equal_sound x y same)
          (insert_same k x e.entries h))
        refl)
  | inr moved ↦ rw moved (marked refl)
]

Marks-from :
    (e₁ e e₂ e' : Engine)
    → e₁.entries ≡ e.entries
    → e₁.generation ≡ e.generation
    → e'.entries ≡ e₂.entries
    → e'.generation ≡ e₂.generation
    → Marks e₁ e₂
    → Marks e e'
Marks-from e₁ e e₂ e' h g h' g' (unmarked s t) = unmarked (h' ∙ s ∙ h) (g' ∙ t ∙ g)
Marks-from e₁ e e₂ e' h g h' g' (marked t) = marked (g' ∙ t ∙ ap (λ n. u64 (n + 1)) g)

observe_locked-Marks :
    (p : Parsers) (wall : Time) (o : UsageObservation) (g : ModelGroup)
    (found : Option (Text × Entry)) (e : Engine)
    → ((k : Text) (x : Entry) → found ≡ some (k, x) → lookup k e.entries ≡ some x)
    → Marks e (observe_locked p wall o g found e).0
unfolding observe_locked
observe_locked-Marks p wall o g none e h = unmarked refl refl
observe_locked-Marks p wall o g (some (k, x)) e h =
    let e₁ : Engine = record e { metrics = observe_metrics e.config o x e.metrics } in
    elim (Bool-cases (is_outdated x o.observed_at || is_fenced o x)) [
      | inl skipped ↦ rw skipped (unmarked refl refl)
      | inr taken ↦ rw taken (
          Marks-from e₁ e _ _ refl refl refl refl
            (commit-Marks wall o.observed_at k x (observe_entry p e.config o x) e₁ (h k x refl)))
    ]

pub observe_usage-Marks :
    (p : Parsers) (wall : Time) (o : UsageObservation) (e : Engine)
    → Marks e (observe_usage p wall o e).0
unfolding observe_usage observe_group
observe_usage-Marks p wall o e = elim (Bool-cases (is_antigravity_provider o.provider)) [
  | inr other ↦ rw other (unmarked refl refl)
  | inl ours ↦ rw ours (elim (Option-cases (classify_model o.model)) [
    | inl unknown ↦ rw unknown (unmarked refl refl)
    | inr (g, known) ↦ rw known (
        observe_locked-Marks p wall (normalized_observation wall o) g _ e
          (λ k x f. lookup_entry-lookup o.auth_index o.auth_id g e k x f))
  ])
]

evidence_locked-Marks :
    (wall : Time) (q : QuotaEvidence) (k : Text) (found : Option Entry) (e : Engine)
    → lookup k e.entries ≡ found
    → Marks e (evidence_locked wall q k found e).0
unfolding evidence_locked
evidence_locked-Marks wall q k none e h = unmarked refl refl
evidence_locked-Marks wall q k (some x) e h =
    let e₁ : Engine = record e { metrics = evidence_metrics q x e.metrics } in
    elim (Bool-cases (evidence_mismatch q x)) [
      | inl other ↦ rw other (unmarked refl refl)
      | inr fits ↦ rw fits (elim (Bool-cases (is_outdated x q.observed_at)) [
        | inl skipped ↦ rw skipped (unmarked refl refl)
        | inr taken ↦ rw taken (
            Marks-from e₁ e _ _ refl refl refl refl
              (commit-Marks wall q.observed_at k x (apply_evidence q x) e₁ h))
      ])
    ]

pub apply_quota_evidence-Marks :
    (wall : Time) (q : QuotaEvidence) (e : Engine)
    → Marks e (after e (apply_quota_evidence wall q e))
unfolding apply_quota_evidence
apply_quota_evidence-Marks wall q e = elim (Bool-cases (evidence_invalid q)) [
  | inl bad ↦ rw bad (unmarked refl refl)
  | inr good ↦
      let n = normalized_evidence wall q in
      let key = entry_key (trim_space n.auth_index) n.group in
      let e₁ : Engine = record e {
        metrics = record (e.metrics) {
          quota_probe_success_total = u64 (e.metrics.quota_probe_success_total + 1);
        };
      } in
      rw good (
        Marks-from e₁ e _ _ refl refl refl refl
          (evidence_locked-Marks wall n key (lookup key e.entries) e₁ refl))
]

take_lease-Marks :
    (wall : Time) (r : PickRequest) (p : PickCandidate) (e : Engine)
    → Marks e (take_lease wall r p e)
unfolding take_lease mark_dirty
take_lease-Marks wall r p e = elim (Bool-cases p.needs_lease) [
  | inr free ↦ rw free (unmarked refl refl)
  | inl probes ↦ rw probes (elim (Option-cases p.found) [
    | inl missing ↦ rw missing (unmarked refl refl)
    | inr ((k, x), located) ↦ rw located (marked refl)
  ])
]

pick_group-Marks :
    (wall : Time) (r : PickRequest) (g : ModelGroup) (policy : Policy) (e : Engine)
    → Marks e (pick_group wall r g policy e).0
unfolding pick_group pick_none pick_selected advance_cursor
pick_group-Marks wall r g policy e =
    let s = scanned wall r e g policy in
    elim (Option-cases (select_available g s e)) [
      | inl missing ↦ rw missing (unmarked (ground arith) (ground arith))
      | inr (p, chosen) ↦ rw chosen (elim (Bool-cases (is_enforce r.mode)) [
        | inr observes ↦ rw observes (unmarked refl refl)
        | inl enforces ↦ rw enforces (
            Marks-from (advance_cursor g (count_scan s e)) e _ _ refl refl refl refl
              (take_lease-Marks wall r p (advance_cursor g (count_scan s e))))
      ])
    ]

pub pick-Marks :
    (wall : Time) (latency : ℕ) (request : PickRequest) (e : Engine)
    → Marks e (pick wall latency request e).0
unfolding pick pick_locked pick_classified record_pick
pick-Marks wall latency request e =
    let r = normalized_request wall request in
    elim (Bool-cases (route_includes_antigravity r)) [
      | inr other ↦ rw other (unmarked refl refl)
      | inl ours ↦ rw ours (elim (Option-cases (classify_model r.model)) [
        | inl unknown ↦
            let same = pick_unknown_model-SameBreaker r _ (counted_model (counted_pick e)) in
            rw unknown (unmarked same.same_entries same.same_generation)
        | inr (g, known) ↦ rw known (elim (Bool-cases (group_enforced g r.enforced_groups)) [
          | inr free ↦ rw free (unmarked refl refl)
          | inl enforced ↦ rw enforced (
              Marks-from (counted_pick e) e _ _ refl refl refl refl
                (pick_group-Marks wall r g (auth_policy r e) (counted_pick e)))
        ])
      ])
    ]
