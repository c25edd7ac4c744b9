-- ===== src/Guard/Edits.antt =====
-- internal/guard: an operation of the engine writes at most one entry, the one that it looked up.
pub mod Picks
use cpa_antigravity_quota_gu.Prelude.{
  ℕ, ◌+◌, u64, ◌≤◌, ◌≡◌, refl, sym, ap, ◌∙◌, subst, some_injective, ◌⊎◌, inl, inr, Option, none,
  some, Bool, true, false, ◌||◌, Bool-cases, Option-cases, arith, Text, lookup, insert, text_eq,
  text_eq_iff, if◌then◌else◌, lookup-insert, AllEntries-insert, AllEntries-lookup, Distinct-insert,
  trim_space,
}
use cpa_antigravity_quota_gu.Guard.Types.{
  Time, ModelGroup, Policy, Fallible, returns, fails, is_enforce,
}
use cpa_antigravity_quota_gu.Guard.Records.{
  Config, Entry, UsageObservation, QuotaEvidence, EvidenceResult, PickRequest,
}
use cpa_antigravity_quota_gu.Guard.Classify.{classify_model, is_antigravity_provider}
use cpa_antigravity_quota_gu.Guard.Reset.{Parsers}
use cpa_antigravity_quota_gu.Guard.Engine.{Engine, entry_key, mark_dirty}
use cpa_antigravity_quota_gu.Guard.Observe.{
  lookup_entry, observe_entry, observe_locked, observe_group, observe_usage, normalized_observation,
  observe_metrics, is_fenced,
}
use cpa_antigravity_quota_gu.Guard.Breaker.{commit, is_outdated}
use cpa_antigravity_quota_gu.Guard.Evidence.{
  apply_evidence, evidence_locked, apply_quota_evidence, evidence_invalid, normalized_evidence,
  evidence_metrics, evidence_mismatch,
}
use cpa_antigravity_quota_gu.Guard.Invariant.{IsValid, IsValidEngine, Filed}
use cpa_antigravity_quota_gu.Guard.Selection.{lookup_entry-lookup}

-- The entry found under a key is replaced by one that stands in a relation to it, or none is.
pub data Edit (R : Entry → Entry → Type 0) (e e' : Engine) : Type 0 where
  kept : e'.entries ≡ e.entries → Edit R e e'
  wrote :
      (k : Text) (x y : Entry)
      → lookup k e.entries ≡ some x
      → R x y
      → e'.entries ≡ insert k y e.entries
      → Edit R e e'

-- An edit is one of the entries alone.
pub Edit-fields :
    (R : Entry → Entry → Type 0) (e₁ e e₂ e' : Engine)
    → e₁.entries ≡ e.entries
    → e'.entries ≡ e₂.entries
    → Edit R e₁ e₂
    → Edit R e e'
Edit-fields R e₁ e e₂ e' h i (kept k) = kept (i ∙ k ∙ h)
Edit-fields R e₁ e e₂ e' h i (wrote k x y f r w) =
    wrote k x y (subst (λ m. lookup k m ≡ some x) h f) r (i ∙ w ∙ ap (insert k y) h)

-- A refused operation leaves the engine as it was.
abbrev pub after {ℓ} : {A : Type ℓ} → Engine → Fallible (Engine × A) → Engine
after e (returns (e', a)) = e'
after e (fails x) = e

-- The settings and the identities stay.
pub record SameSetup (e e' : Engine) : Type 0 where
  pub same_config : e'.config ≡ e.config
  pub same_auth : e'.auth_by_id ≡ e.auth_by_id

-- A new entry that is valid and of the same index and group.
pub record Replaces (x y : Entry) : Type 0 where
  pub valid : IsValid x → IsValid y
  pub same_index : y.auth_index ≡ x.auth_index
  pub same_group : y.model_group ≡ x.model_group

-- Writing such an entry keeps the engine valid.
pub Edit-IsValidEngine :
    (R : Entry → Entry → Type 0) (e e' : Engine)
    → ((x y : Entry) → R x y → Replaces x y)
    → e'.config ≡ e.config
    → Edit R e e'
    → IsValidEngine e
    → IsValidEngine e'
Edit-IsValidEngine R e e' rep c (kept h) v = record {
  configured = rw c v.configured;
  filed = rw h v.filed;
  distinct = rw h v.distinct;
}
Edit-IsValidEngine R e e' rep c (wrote k x y found r h) v =
    let (valid, key) = AllEntries-lookup Filed k x e.entries v.filed found in
    let q = rep x y r in
    record {
      configured = rw c v.configured;
      filed = rw h (
          AllEntries-insert Filed k y e.entries (q.valid valid, rw (q.same_index, q.same_group) key)
            v.filed);
      distinct = rw h (Distinct-insert k y e.entries v.distinct);
    }

commit_fields :
    (wall at : Time) (k : Text) (x y : Entry) (e : Engine)
    → let e' = commit wall at k x y e in (e'.entries ≡ insert k y e.entries) × SameSetup e e'
unfolding commit
commit_fields wall at k x y e = ground arith

-- What a usage record does to an entry whose evidence is no later.
abbrev pub Observed : Parsers → Config → UsageObservation → Entry → Entry → Type 0
Observed p c o x y = (x.last_evidence_at ≤ o.observed_at) × (y ≡ observe_entry p c o x)

module _ (p : Parsers) (wall : Time) where
  observe_locked-Edit :
      (o : UsageObservation) (g : ModelGroup) (found : Option (Text × Entry)) (e : Engine)
      → ((k : Text) (x : Entry) → found ≡ some (k, x) → lookup k e.entries ≡ some x)
      → Edit (Observed p e.config o) e (observe_locked p wall o g found e).0
        × SameSetup e (observe_locked p wall o g found e).0
  unfolding observe_locked
  observe_locked-Edit o g none e h = (kept refl, ground arith)
  observe_locked-Edit o g (some (k, x)) e h =
      let y = observe_entry p e.config o x in
      let e₁ : Engine = record e { metrics = observe_metrics e.config o x e.metrics } in
      let (written, setup) = commit_fields wall o.observed_at k x y e₁ in
      elim (Bool-cases (is_outdated x o.observed_at || is_fenced o x)) [
        | inl skipped ↦ rw skipped (kept refl, record { same_config = refl; same_auth = refl })
        | inr taken ↦ rw taken (
          wrote k x y (h k x refl) (ground arith, refl) written,
          record { same_config = setup.same_config; same_auth = setup.same_auth },
        )
      ]

  -- A usage record changes no setting and no identity, and of the entries at most the one that is
  -- looked up for it, which it replaces by what the breaker makes of the record.
  pub observe_usage-Edit :
      (o : UsageObservation) (e : Engine)
      → Edit (Observed p e.config (normalized_observation wall o)) e (observe_usage p wall o e).0
        × SameSetup e (observe_usage p wall o e).0
  unfolding observe_usage observe_group
  observe_usage-Edit o e = elim (Bool-cases (is_antigravity_provider o.provider)) [
    | inl ours ↦ rw ours (elim (Option-cases (classify_model o.model)) [
      | inl unknown ↦ rw unknown (kept refl, record { same_config = refl; same_auth = refl })
      | inr (g, known) ↦ rw known (
          observe_locked-Edit (normalized_observation wall o) g _ e
            (λ k x f. lookup_entry-lookup o.auth_index o.auth_id g e k x f))
    ])
    | inr other ↦ rw other (kept refl, record { same_config = refl; same_auth = refl })
  ]

-- What a probe's evidence does to an entry whose evidence is no later.
abbrev pub Evidenced : QuotaEvidence → Entry → Entry → Type 0
Evidenced q x y =
    (evidence_invalid q ≡ false) × (x.last_evidence_at ≤ q.observed_at) × (y ≡ apply_evidence q x)

module _ (wall : Time) where
  evidence_locked-Edit :
      (q : QuotaEvidence) (k : Text) (found : Option Entry) (e : Engine)
      → evidence_invalid q ≡ false
      → lookup k e.entries ≡ found
      → Edit (Evidenced q) e (evidence_locked wall q k found e).0
        × SameSetup e (evidence_locked wall q k found e).0
  unfolding evidence_locked
  evidence_locked-Edit q k none e good h = (kept refl, ground arith)
  evidence_locked-Edit q k (some x) e good h =
      let y = apply_evidence q x in
      let e₁ : Engine = record e { metrics = evidence_metrics q x e.metrics } in
      let (written, setup) = commit_fields wall q.observed_at k x y e₁ in
      elim (Bool-cases (evidence_mismatch q x)) [
        | inl other ↦ rw other (kept refl, record { same_config = refl; same_auth = refl })
        | inr fits ↦ rw fits (elim (Bool-cases (is_outdated x q.observed_at)) [
          | inl skipped ↦ rw skipped (kept refl, record { same_config = refl; same_auth = refl })
          | inr taken ↦ rw taken (
            wrote k x y h (good, ground arith, refl) written,
            record { same_config = setup.same_config; same_auth = setup.same_auth },
          )
        ])
      ]

  -- Quota evidence likewise, and none that is out of range writes anything.
  pub apply_quota_evidence-Edit :
      (q : QuotaEvidence) (e : Engine)
      → let e' = after e (apply_quota_evidence wall q e) in
        Edit (Evidenced (normalized_evidence wall q)) e e' × SameSetup e e'
  unfolding apply_quota_evidence
  apply_quota_evidence-Edit q e = elim (Bool-cases (evidence_invalid q)) [
    | inl bad ↦ rw bad (kept refl, record { same_config = refl; same_auth = refl })
    | inr good ↦
        let e₁ : Engine = record e {
          metrics = record (e.metrics) {
            quota_probe_success_total = u64 (e.metrics.quota_probe_success_total + 1);
          };
        } in
        let n = normalized_evidence wall q in
        let key = entry_key (trim_space n.auth_index) n.group in
        let (edit, setup) = evidence_locked-Edit n key (lookup key e.entries) e₁ good refl in
        rw good (
          Edit-fields (Evidenced n) e₁ e _ _ refl refl edit,
          record { same_config = setup.same_config; same_auth = setup.same_auth },
        )
  ]

-- What stands under a key after an edit.
pub Edit-lookup :
    (R : Entry → Entry → Type 0) (e e' : Engine) (k : Text) (x : Entry)
    → Edit R e e'
    → lookup k e.entries ≡ some x
    → (lookup k e'.entries ≡ some x) ⊎ ((y : Entry) × R x y × (lookup k e'.entries ≡ some y))
Edit-lookup R e e' k x (kept h) f = inl (rw h f)
Edit-lookup R e e' k x (wrote j z y g r h) f = elim (Bool-cases (text_eq j k)) [
  | inl same ↦ inr (
    y,
    subst (λ v. R v y)
        (some_injective (sym g ∙ ap (λ i. lookup i e.entries) ((text_eq_iff j k).0 same) ∙ f)) r,
    rw (h, lookup-insert j k y e.entries, same),
  )
  | inr other ↦ inl (rw (h, lookup-insert j k y e.entries, other) f)
]
