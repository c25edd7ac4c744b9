-- ===== src/Guard/Roster/Credentials.antt =====
-- internal/guard/engine.go: whose breaker an entry carries after ReplaceRoster.
use cpa_antigravity_quota_gu.Prelude.{
  ℕ, zero, suc, ◌≡◌, refl, sym, ◌∙◌, subst, true, false, inl, inr, some, some_injective, List, [],
  ◌∷◌, arith, Bool-cases, Option-cases, Text, Dict, lookup, insert, lookup-insert,
  lookup-insert_self, text_eq, AllEntries, AllEntries-insert, get_elem?,
}
use cpa_antigravity_quota_gu.Guard.Types.{ModelGroup, gemini, claude_gpt, other_group, group_valid}
use cpa_antigravity_quota_gu.Guard.Records.{Identity, Entry}
use cpa_antigravity_quota_gu.Guard.Engine.{entry_key}
use cpa_antigravity_quota_gu.Guard.Entries.{new_entry}
use cpa_antigravity_quota_gu.Guard.Roster.{same_credential, roster_entry, roster_entries}

-- An entry with what the roster says of its account besides the credential.
abbrev pub refreshed : Identity → Entry → Entry
refreshed i x = record x { provider = i.provider; priority = i.priority }

-- An entry under a key is new, where the key had none of the credential, or the old one of it.
pub data Owned (old : Dict Entry) (i : Identity) (g : ModelGroup) (k : Text) (y : Entry)
    : Type 0 where
  fresh :
      y ≡ new_entry i g
      → ((x : Entry) → lookup k old ≡ some x → same_credential x i ≡ false)
      → Owned old i g k y
  kept :
      (x : Entry)
      → lookup k old ≡ some x
      → same_credential x i ≡ true
      → y ≡ refreshed i x
      → Owned old i g k y

roster_entry-Owned :
    (old : Dict Entry) (i : Identity) (g : ModelGroup) (k : Text)
    → Owned old i g k (roster_entry (lookup k old) i g)
unfolding roster_entry
roster_entry-Owned old i g k = elim (Option-cases (lookup k old)) [
  | inl missing ↦ rw missing (fresh refl (λ x found. cc))
  | inr (x, found) ↦ elim (Bool-cases (same_credential x i)) [
    | inl same ↦ rw (found, same) (kept x found same refl)
    | inr other ↦
        rw (found, other)
          (fresh refl (λ z also.
            subst (λ w. same_credential w i ≡ false) (some_injective (sym found ∙ also)) other))
  ]
]

-- One round of the loop, for the first group and for both.
abbrev with_group : Dict Entry → Identity → ModelGroup → Dict Entry → Dict Entry
with_group old i g next =
    let k = entry_key i.auth_index g in insert k (roster_entry (lookup k old) i g) next

abbrev with_item : Dict Entry → Identity → Dict Entry → Dict Entry
with_item old i next = with_group old i claude_gpt (with_group old i gemini next)

module _ (old : Dict Entry) (items : List Identity) where
  -- An entry of the account of an item of the roster.
  pub record OfRoster (k : Text) (y : Entry) : Type 0 where
    pub place : ℕ
    pub item : Identity
    pub group : ModelGroup
    pub listed : get_elem? items place ≡ some item
    pub supported : group_valid group ≡ true
    pub key : k ≡ entry_key item.auth_index group
    pub owned : Owned old item group k y

  -- The items from some place on.
  abbrev pub Rest : List Identity → Type 0
  Rest is =
      (n : ℕ) (i : Identity) → get_elem? is n ≡ some i → (m : ℕ) × (get_elem? items m ≡ some i)

  insert-OfRoster :
      (i : Identity) (g : ModelGroup) (next : Dict Entry)
      → group_valid g ≡ true
      → ((m : ℕ) × (get_elem? items m ≡ some i))
      → AllEntries OfRoster next
      → let k = entry_key i.auth_index g in
        AllEntries OfRoster (insert k (roster_entry (lookup k old) i g) next)
  insert-OfRoster i g next h (m, at) f =
      let k = entry_key i.auth_index g in
      AllEntries-insert OfRoster k _ next
        (record {
          place = m;
          item = i;
          group = g;
          listed = at;
          supported = h;
          key = refl;
          owned = roster_entry-Owned old i g k;
        })
        f

  pub roster_entries-OfRoster :
      (next : Dict Entry) (is : List Identity)
      → Rest is
      → AllEntries OfRoster next
      → AllEntries OfRoster (roster_entries old next is)
  unfolding roster_entries
  roster_entries-OfRoster next [] r f = f
  roster_entries-OfRoster next (i ∷ is) r f =
      roster_entries-OfRoster (with_item old i next) is (λ n j at. r (suc n) j at)
        (insert-OfRoster i claude_gpt _ refl (r 0 i refl)
          (insert-OfRoster i gemini next refl (r 0 i refl) f))

-- The keys that the loop writes, and those written before it.
abbrev pub Has : Text → Dict Entry → Type 0
Has k m = (y : Entry) × (lookup k m ≡ some y)

insert-Has : (j k : Text) (v : Entry) (m : Dict Entry) → Has k m → Has k (insert j v m)
insert-Has j k v m (y, h) = elim (Bool-cases (text_eq j k)) [
  | inl same ↦ (v, ground (arith, lookup-insert j k v m))
  | inr other ↦ (y, ground (arith, lookup-insert j k v m))
]

insert-Has_self : (k : Text) (v : Entry) (m : Dict Entry) → Has k (insert k v m)
insert-Has_self k v m = (v, lookup-insert_self k v m)

roster_entries-Has :
    (old next : Dict Entry) (is : List Identity) (k : Text)
    → Has k next
    → Has k (roster_entries old next is)
unfolding roster_entries
roster_entries-Has old next [] k h = h
roster_entries-Has old next (i ∷ is) k h =
    roster_entries-Has old (with_item old i next) is k
      (insert-Has _ k _ _ (insert-Has _ k _ next h))

pub roster_entries-Has_item :
    (old next : Dict Entry) (is : List Identity) (n : ℕ) (i : Identity) (g : ModelGroup)
    → get_elem? is n ≡ some i
    → group_valid g ≡ true
    → Has (entry_key i.auth_index g) (roster_entries old next is)
unfolding roster_entries
roster_entries-Has_item old next [] n i g at h = cc
roster_entries-Has_item old next (j ∷ is) (suc n) i g at h =
    roster_entries-Has_item old (with_item old j next) is n i g at h
roster_entries-Has_item old next (j ∷ is) zero i gemini at h =
    subst (λ i. Has (entry_key i.auth_index gemini) (roster_entries old next (j ∷ is)))
      (some_injective at)
      (roster_entries-Has old (with_item old j next) is _
        (insert-Has _ _ _ _ (insert-Has_self _ _ next)))
roster_entries-Has_item old next (j ∷ is) zero i claude_gpt at h =
    subst (λ i. Has (entry_key i.auth_index claude_gpt) (roster_entries old next (j ∷ is)))
      (some_injective at)
      (roster_entries-Has old (with_item old j next) is _ (insert-Has_self _ _ _))
roster_entries-Has_item old next (j ∷ is) zero i (other_group t) at h = cc
