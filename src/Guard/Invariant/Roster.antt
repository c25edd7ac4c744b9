-- ===== src/Guard/Invariant/Roster.antt =====
-- internal/guard/engine.go: the roster keeps the engine valid.
use cpa_antigravity_quota_gu.Prelude.{
  ◌≡◌, refl, subst, Bool, true, false, ◌||◌, not, inl, inr, List, [], ◌∷◌, arith, eq_ℤ, text_eq,
  Text, Dict, lookup, insert, Bool-cases, Option-cases, AllEntries, AllEntries-insert,
  AllEntries-lookup, Distinct, Distinct-insert,
}
use cpa_antigravity_quota_gu.Guard.Types.{
  Time, ModelGroup, gemini, claude_gpt, group_valid, Fallible, returns, fails, returns_injective,
  fails_ne_returns,
}
use cpa_antigravity_quota_gu.Guard.Records.{Identity, Entry}
use cpa_antigravity_quota_gu.Guard.Engine.{Engine, entry_key, mark_dirty}
use cpa_antigravity_quota_gu.Guard.Roster.{
  same_credential, normalize_identity, owned_elsewhere, roster_entry, normalize_roster,
  roster_entries, replace_roster, register_group, register_identity,
}
use cpa_antigravity_quota_gu.Guard.Entries.{new_entry, entries_equal}
use cpa_antigravity_quota_gu.Guard.Invariant.{Filed, IsValidEngine}
use cpa_antigravity_quota_gu.Guard.Invariant.Entries.{new_entry-IsValid}

-- The loop over the roster files each entry under its key.
roster_entry-Filed :
    (old : Dict Entry) (i : Identity) (g : ModelGroup)
    → group_valid g ≡ true
    → AllEntries Filed old
    → let k = entry_key i.auth_index g in Filed k (roster_entry (lookup k old) i g)
unfolding roster_entry new_entry
roster_entry-Filed old i g h v =
    let k = entry_key i.auth_index g in
    elim (Option-cases (lookup k old)) [
      | inl missing ↦ rw missing (new_entry-IsValid i g h, refl)
      | inr (x, found) ↦
          let (valid, key) = AllEntries-lookup Filed k x old v found in
          rw found (elim (Bool-cases (same_credential x i)) [
            | inl same ↦ rw same (ground arith, key)
            | inr other ↦ rw other (new_entry-IsValid i g h, refl)
          ])
    ]

pub roster_entries-valid :
    (old next : Dict Entry) (is : List Identity)
    → AllEntries Filed old
    → AllEntries Filed next
    → Distinct next
    → AllEntries Filed (roster_entries old next is) × Distinct (roster_entries old next is)
unfolding roster_entries
roster_entries-valid old next [] v f d = (f, d)
roster_entries-valid old next (i ∷ is) v f d =
    let kg = entry_key i.auth_index gemini in
    let kc = entry_key i.auth_index claude_gpt in
    let one = insert kg (roster_entry (lookup kg old) i gemini) next in
    roster_entries-valid old (insert kc (roster_entry (lookup kc old) i claude_gpt) one) is v
      (AllEntries-insert Filed kc _ one (roster_entry-Filed old i claude_gpt refl v)
        (AllEntries-insert Filed kg _ next (roster_entry-Filed old i gemini refl v) f))
      (Distinct-insert kc _ one (Distinct-insert kg _ next d))

-- A new roster keeps the engine valid.
pub replace_roster-IsValidEngine :
    (sha : Text → Text) (wall : Time) (is : List Identity) (e e' : Engine)
    → IsValidEngine e
    → replace_roster sha wall is e ≡ returns e'
    → IsValidEngine e'
unfolding replace_roster mark_dirty
replace_roster-IsValidEngine sha wall is e e' v h = go (normalize_roster sha [] [] is) refl
  where
    go : (r : Fallible (List Identity)) → normalize_roster sha [] [] is ≡ r → IsValidEngine e'
    go (fails x) n = absurd (fails_ne_returns (rw n at h))
    go (returns normalized) n =
        let next = roster_entries e.entries [] normalized in
        let (f, d) = roster_entries-valid e.entries [] normalized v.filed tt tt in
        subst IsValidEngine (returns_injective (rw n at h))
          (elim (Bool-cases (entries_equal e.entries next)) [
            | inl same ↦
                rw same
                  (record { configured = v.configured; filed = v.filed; distinct = v.distinct })
            | inr changed ↦
                rw changed (record { configured = v.configured; filed = f; distinct = d })
          ])

register_group-valid :
    (i : Identity) (g : ModelGroup) (m : Dict Entry) (changed : Bool)
    → group_valid g ≡ true
    → AllEntries Filed m
    → Distinct m
    → AllEntries Filed (register_group i g (m, changed)).0
      × Distinct (register_group i g (m, changed)).0
unfolding register_group new_entry
register_group-valid i g m changed h f d =
    let k = entry_key i.auth_index g in
    let fresh = new_entry i g in
    let renewed : AllEntries Filed (insert k fresh m) × Distinct (insert k fresh m) = (
      AllEntries-insert Filed k fresh m (new_entry-IsValid i g h, refl) f,
      Distinct-insert k fresh m d,
    ) in
    elim (Option-cases (lookup k m)) [
      | inl missing ↦ rw (missing, register_group) renewed
      | inr (x, found) ↦
          let (valid, key) = AllEntries-lookup Filed k x m f found in
          let y : Entry = record x { provider = i.provider; priority = i.priority } in
          rw (found, register_group)
            (elim (Bool-cases (
              not (text_eq x.auth_id i.auth_id)
              || not (text_eq x.identity_fingerprint i.identity_fingerprint))) [
                | inl other ↦ rw other renewed
                | inr same ↦
                    rw same
                      (elim (Bool-cases
                        (not (text_eq x.provider i.provider) || not (eq_ℤ x.priority i.priority))) [
                          | inl moved ↦ rw moved (
                            AllEntries-insert Filed k y m (ground arith, key) f,
                            Distinct-insert k y m d,
                          )
                          | inr equal ↦ rw equal (f, d)
                        ])
              ])
    ]

-- Registering an identity keeps the engine valid.
pub register_identity-IsValidEngine :
    (sha : Text → Text) (wall : Time) (identity : Identity) (e e' : Engine)
    → IsValidEngine e
    → register_identity sha wall identity e ≡ returns e'
    → IsValidEngine e'
unfolding register_identity mark_dirty
register_identity-IsValidEngine sha wall identity e e' v h =
    go (normalize_identity sha identity) refl
  where
    go : (r : Fallible Identity) → normalize_identity sha identity ≡ r → IsValidEngine e'
    go (fails x) n = absurd (fails_ne_returns (rw n at h))
    go (returns i) n =
        let one = register_group i gemini (e.entries, false) in
        let two = register_group i claude_gpt one in
        let (f₁, d₁) = register_group-valid i gemini e.entries false refl v.filed v.distinct in
        let (f₂, d₂) = register_group-valid i claude_gpt one.0 one.1 refl f₁ d₁ in
        elim (Bool-cases (owned_elsewhere (lookup i.auth_id e.auth_by_id) i.auth_index)) [
          | inl owned ↦ absurd (fails_ne_returns (rw (n, owned) at h))
          | inr free ↦
              subst IsValidEngine (returns_injective (rw (n, free) at h)) (elim (Bool-cases two.1) [
                | inl changed ↦
                    rw changed (record { configured = v.configured; filed = f₂; distinct = d₂ })
                | inr kept ↦
                    rw kept (record { configured = v.configured; filed = f₂; distinct = d₂ })
              ])
        ]
