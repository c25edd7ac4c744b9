-- ===== src/Guard/Roster/Keeps.antt =====
-- internal/guard/engine.go: whose breakers the engine has after ReplaceRoster.
use cpa_antigravity_quota_gu.Prelude.{
  ℕ, ◌≡◌, refl, sym, ◌∙◌, ap, text_eq_iff, AllEntries-lookup, subst, true, inl, inr, some,
  some_injective, List, [], ◌∷◌, arith, Bool-cases, Option-cases, Text, Dict, lookup, text_eq,
  get_elem?,
}
use cpa_antigravity_quota_gu.Guard.Types.{
  ModelGroup, group_valid, Time, Fallible, returns, fails, returns_injective, fails_ne_returns,
}
use cpa_antigravity_quota_gu.Guard.Records.{Identity, Entry}
use cpa_antigravity_quota_gu.Guard.Engine.{entry_key, Engine, mark_dirty}
use cpa_antigravity_quota_gu.Guard.Roster.{
  same_credential, roster_entries, normalize_roster, replace_roster,
}
use cpa_antigravity_quota_gu.Guard.Roster.Credentials.{
  OfRoster, Owned, fresh, kept, refreshed, roster_entries-OfRoster, roster_entries-Has_item,
}
use cpa_antigravity_quota_gu.Guard.Roster.Accepted.{Apart, normalize_roster-Apart}
use cpa_antigravity_quota_gu.Guard.Entries.{entries_within, entries_equal}
use cpa_antigravity_quota_gu.Guard.Store.Equality.{entry_equal_sound}
use cpa_antigravity_quota_gu.Guard.Keys.{entry_key-injective}

-- What entriesEqual finds in the left map stands in the right one.
entries_within-lookup :
    (left right : Dict Entry) (k : Text) (y : Entry)
    → entries_within left right ≡ true
    → lookup k left ≡ some y
    → lookup k right ≡ some y
unfolding entries_within lookup
entries_within-lookup [] right k y w h = cc
entries_within-lookup ((j, a) ∷ left) right k y w h = elim (Bool-cases (text_eq j k)) [
  | inl same ↦ elim (Option-cases (lookup j right)) [
    | inl missing ↦ cc (rw missing at w)
    | inr (b, found) ↦
        let q : a ≡ b = entry_equal_sound a b (ground arith) in ground (arith, text_eq_iff j k)
  ]
  | inr other ↦ entries_within-lookup left right k y (ground arith) (ground arith)
]

-- The entries of the engine after a new roster: each is of an item, and a breaker of the same
-- credential is remembered.
pub record Keeps (old now : Dict Entry) (items : List Identity) : Type 0 where
  pub owned : (k : Text) (y : Entry) → lookup k now ≡ some y → OfRoster old items k y
  pub remembered :
      (n : ℕ) (i : Identity) (g : ModelGroup) (x : Entry)
      → get_elem? items n ≡ some i
      → group_valid g ≡ true
      → lookup (entry_key i.auth_index g) old ≡ some x
      → same_credential x i ≡ true
      → lookup (entry_key i.auth_index g) now ≡ some (refreshed i x)

module _ (old : Dict Entry) (items : List Identity) (apart : Apart items) where
  abbrev next : Dict Entry
  next = roster_entries old [] items

  next-OfRoster : (k : Text) (y : Entry) → lookup k next ≡ some y → OfRoster old items k y
  next-OfRoster k y h =
      AllEntries-lookup (OfRoster old items) k y next
        (roster_entries-OfRoster old items [] items (λ n i at. (n, at)) tt) h

  Owned-kept :
      (i : Identity) (g : ModelGroup) (k : Text) (x y : Entry)
      → Owned old i g k y
      → lookup k old ≡ some x
      → same_credential x i ≡ true
      → y ≡ refreshed i x
  Owned-kept i g k x y (fresh e none) found same = cc (none x found)
  Owned-kept i g k x y (kept z also _ e) found same =
      e ∙ ap (refreshed i) (some_injective (sym also ∙ found))

  next-remembered :
      (n : ℕ) (i : Identity) (g : ModelGroup) (x : Entry)
      → get_elem? items n ≡ some i
      → group_valid g ≡ true
      → lookup (entry_key i.auth_index g) old ≡ some x
      → same_credential x i ≡ true
      → lookup (entry_key i.auth_index g) next ≡ some (refreshed i x)
  next-remembered n i g x at h found same =
      let k = entry_key i.auth_index g in
      let (y, there) = roster_entries-Has_item old [] items n i g at h in
      let o = next-OfRoster k y there in
      let (p, q) =
        entry_key-injective i.auth_index o.item.auth_index g o.group h o.supported o.key in
      let e : i ≡ o.item = apart n o.place i o.item at o.listed p in
      there
      ∙ ap some (
          Owned-kept i g k x y
            (subst (λ j. Owned old j g k y) (sym e)
              (subst (λ m. Owned old o.item m k y) (sym q) o.owned))
            found same)

  next-Keeps : Keeps old next items
  next-Keeps = record { owned = next-OfRoster; remembered = next-remembered }

  -- The entries stay as they are if no item changes one.
  same-Keeps : entries_within old next ≡ true → Keeps old old items
  same-Keeps w = record {
    owned = λ k y h. next-OfRoster k y (entries_within-lookup old next k y w h);
    remembered = λ n i g x at h found same.
        found
        ∙ sym (entries_within-lookup old next _ x w found)
        ∙ next-remembered n i g x at h found same;
  }

-- Each entry that an accepted roster leaves is of an account in it and of a supported group: it is
-- the entry that its key had before, with provider and priority from the roster, where that has
-- the account's id and fingerprint, and a new one otherwise. An entry from before of a credential
-- in the roster is still there.
pub replace_roster-Keeps :
    (sha : Text → Text) (wall : Time) (is : List Identity) (e e' : Engine)
    → replace_roster sha wall is e ≡ returns e'
    → (items : List Identity) × (normalize_roster sha [] [] is ≡ returns items)
      × Keeps e.entries e'.entries items
unfolding replace_roster mark_dirty entries_equal
replace_roster-Keeps sha wall is e e' h = go (normalize_roster sha [] [] is) refl
  where
    go :
        (r : Fallible (List Identity))
        → normalize_roster sha [] [] is ≡ r
        → (items : List Identity) × (normalize_roster sha [] [] is ≡ returns items)
          × Keeps e.entries e'.entries items
    go (fails x) n = absurd (fails_ne_returns (rw n at h))
    go (returns items) n =
        let apart = (normalize_roster-Apart sha [] [] is items n).1 in
        let next = roster_entries e.entries [] items in
        (
          items,
          n,
          subst (λ f. Keeps e.entries f.entries items) (returns_injective (rw n at h))
              (elim (Bool-cases (entries_equal e.entries next)) [
                | inl same ↦ rw same (same-Keeps e.entries items apart (ground arith))
                | inr changed ↦ rw changed (next-Keeps e.entries items apart)
              ]),
        )
