-- ===== src/Guard/Store/Saving.antt =====
-- internal/guard/store.go: a save that races with other operations loses no change.
use cpa_antigravity_quota_gu.Prelude.{
  ℕ, zero, suc, ◌+◌, ◌≤◌, ◌<◌, ◌≡◌, refl, sym, ap, ◌∙◌, subst, ◌⊎◌, inl, inr, ◌||◌, not, Bool,
  false, List, [], arith, u64, Text, Dict, lookup, trim_space, is_empty, Bool-cases, Option-cases,
  ◌==◌, ==_iff,
}
use cpa_antigravity_quota_gu.Guard.Types.{
  Time, ModelGroup, gemini, claude_gpt, group_valid, Fallible, returns, fails, returns_injective,
  fails_ne_returns,
}
use cpa_antigravity_quota_gu.Guard.Records.{Entry, Identity}
use cpa_antigravity_quota_gu.Guard.Reset.{Parsers}
use cpa_antigravity_quota_gu.Guard.Engine.{Engine, entry_key, mark_dirty}
use cpa_antigravity_quota_gu.Guard.Entries.{sorted_entries, entries_equal}
use cpa_antigravity_quota_gu.Guard.Roster.{
  normalize_roster, roster_entries, replace_roster, register_group, normalize_identity,
  owned_elsewhere, register_identity,
}
use cpa_antigravity_quota_gu.Guard.Breaker.{or_wall}
use cpa_antigravity_quota_gu.Guard.Evidence.{record_quota_probe_error}
use cpa_antigravity_quota_gu.Guard.Pick.{manual_refusal, manual_found, manual_half_open}
use cpa_antigravity_quota_gu.Guard.Edits.{after}
use cpa_antigravity_quota_gu.Guard.Store.{save_begin, save_finish, record_persist_error}
use cpa_antigravity_quota_gu.Guard.Store.Marks.{
  Marks, unmarked, marked, observe_usage-Marks, apply_quota_evidence-Marks, pick-Marks,
}
use cpa_antigravity_quota_gu.Guard.Steps.{
  Step, picks, observes, probes, probe_fails, readies, reconciles, registers, saves,
}

manual_half_open-Marks :
    (wall : Time) (index : Text) (g : ModelGroup) (now : Time) (e : Engine)
    → Marks e (after e (manual_half_open wall index g now e))
unfolding manual_half_open manual_found mark_dirty
manual_half_open-Marks wall index g now e =
    elim (Bool-cases (is_empty (trim_space index) || not (group_valid g))) [
      | inl refused ↦ rw refused (unmarked refl refl)
      | inr good ↦
          rw good (elim (Option-cases (lookup (entry_key (trim_space index) g) e.entries)) [
            | inl missing ↦ rw missing (unmarked refl refl)
            | inr (x, found) ↦ rw found (elim (Option-cases (manual_refusal x (or_wall wall now))) [
              | inr (refused, why) ↦ rw (why, manual_found) (unmarked refl refl)
              | inl free ↦ rw (free, manual_found) (marked refl)
            ])
          ])
    ]

replace_roster-Marks :
    (sha : Text → Text) (wall : Time) (is : List Identity) (e e' : Engine)
    → replace_roster sha wall is e ≡ returns e'
    → Marks e e'
unfolding replace_roster mark_dirty
replace_roster-Marks sha wall is e e' h = go (normalize_roster sha [] [] is) refl
  where
    go : (r : Fallible (List Identity)) → normalize_roster sha [] [] is ≡ r → Marks e e'
    go (fails x) n = absurd (fails_ne_returns (rw n at h))
    go (returns normalized) n =
        let next = roster_entries e.entries [] normalized in
        subst (Marks e) (returns_injective (rw n at h))
          (elim (Bool-cases (entries_equal e.entries next)) [
            | inl same ↦ rw same (unmarked refl refl)
            | inr changed ↦ rw changed (marked refl)
          ])

register_group-kept :
    (i : Identity) (g : ModelGroup) (m : Dict Entry) (c : Bool)
    → (register_group i g (m, c)).1 ≡ false
    → (c ≡ false) × ((register_group i g (m, c)).0 ≡ m)
unfolding register_group
register_group-kept i g m c h = ground arith

register_identity-Marks :
    (sha : Text → Text) (wall : Time) (identity : Identity) (e e' : Engine)
    → register_identity sha wall identity e ≡ returns e'
    → Marks e e'
unfolding register_identity mark_dirty
register_identity-Marks sha wall identity e e' h = go (normalize_identity sha identity) refl
  where
    go : (r : Fallible Identity) → normalize_identity sha identity ≡ r → Marks e e'
    go (fails x) n = absurd (fails_ne_returns (rw n at h))
    go (returns i) n =
        let one = register_group i gemini (e.entries, false) in
        let two = register_group i claude_gpt one in
        elim (Bool-cases (owned_elsewhere (lookup i.auth_id e.auth_by_id) i.auth_index)) [
          | inl owned ↦ absurd (fails_ne_returns (rw (n, owned) at h))
          | inr free ↦
              subst (Marks e) (returns_injective (rw (n, free) at h)) (elim (Bool-cases two.1) [
                | inl changed ↦ rw changed (marked refl)
                | inr kept ↦
                    let (c₂, same₂) = register_group-kept i claude_gpt one.0 one.1 kept in
                    let (c₁, same₁) = register_group-kept i gemini e.entries false c₂ in
                    rw kept (unmarked (same₂ ∙ same₁) refl)
              ])
        ]

module _ (p : Parsers) (sha : Text → Text) where
  Step-Marks : {e e' : Engine} → Step p sha e e' → Marks e e'
  unfolding record_quota_probe_error save_finish record_persist_error
  Step-Marks {e} (picks wall latency r) = pick-Marks wall latency r e
  Step-Marks {e} (observes wall o) = observe_usage-Marks p wall o e
  Step-Marks {e} (probes wall q) = apply_quota_evidence-Marks wall q e
  Step-Marks probe_fails = unmarked refl refl
  Step-Marks {e} (readies wall index g now) = manual_half_open-Marks wall index g now e
  Step-Marks {e} (reconciles wall is h) = replace_roster-Marks sha wall is e _ h
  Step-Marks {e} (registers wall i h) = register_identity-Marks sha wall i e _ h
  Step-Marks (saves generation (fails x)) = unmarked refl refl
  Step-Marks {e} (saves generation (returns u)) = elim (Bool-cases (e.generation == generation)) [
    | inl same ↦ rw same (unmarked refl refl)
    | inr moved ↦ rw moved (unmarked refl refl)
  ]

  -- A number of steps.
  pub data Steps (e : Engine) : ℕ → Engine → Type 0 where
    here : Steps e zero e
    then : {n : ℕ} {e' e'' : Engine} → Steps e n e' → Step p sha e' e'' → Steps e (suc n) e''

  -- How far the generation has moved, and that the entries are the same where it has not.
  record Moved (e e' : Engine) (n m : ℕ) : Type 0 where
    few : m ≤ n
    generation : e'.generation ≡ u64 (e.generation + m)
    same : m ≡ 0 → e'.entries ≡ e.entries

  Steps-Moved :
      {e e' : Engine} {n : ℕ}
      → e.generation < 18446744073709551616
      → Steps e n e'
      → (m : ℕ) × Moved e e' n m
  Steps-Moved h here = (0, record { few = omega arith; generation = omega arith; same = λ z. refl })
  Steps-Moved {e} h (then {n} {e'} {e''} s t) = go (Steps-Moved h s) (Step-Marks t)
    where
      go : (m : ℕ) × Moved e e' n m → Marks e' e'' → (m : ℕ) × Moved e e'' (suc n) m
      go (m, v) (unmarked same g) = (
        m,
        record {
          few = omega (arith, v.few);
          generation = g ∙ v.generation;
          same = λ z. same ∙ v.same z;
        },
      )
      go (m, v) (marked g) = (
        suc m,
        record {
          few = omega (arith, v.few);
          generation = omega (arith, g, v.generation);
          same = λ z. absurd (omega arith);
        },
      )

  -- However many operations run between the two locked parts of a save (fewer than 2^64), a save
  -- that succeeds marks the engine clean only if the entries that it wrote are still the engine's.
  pub save_keeps_changes :
      (wall : Time) (e e' : Engine) (n : ℕ)
      → e.generation < 18446744073709551616
      → n < 18446744073709551616
      → Steps e n e'
      → let (document, generation) = save_begin wall e in
        let e'' = save_finish generation (returns tt) e' in
        (e''.dirty ≡ e'.dirty) ⊎ (document.entries ≡ sorted_entries e''.entries)
  unfolding save_begin save_finish
  save_keeps_changes wall e e' n small few s = elim (Bool-cases (e'.generation == e.generation)) [
    | inr moved ↦ inl (rw moved)
    | inl equal ↦
        let (m, v) = Steps-Moved small s in
        let g = (==_iff e'.generation e.generation).0 equal in
        inr (rw equal (ap sorted_entries (sym (v.same (omega (arith, v.few, v.generation))))))
  ]
