-- ===== src/Guard/Store/Sorted.antt =====
-- internal/guard/engine.go: sortedEntries loses no entry and mixes up no key.
use cpa_antigravity_quota_gu.Prelude.{
  ◌≡◌, refl, sym, ◌∙◌, subst, false, inl, inr, Option, none, some, List, [], ◌∷◌, arith, Bool-cases,
  if◌then◌else◌, Text, text_eq, text_eq_iff, Dict, lookup, AllEntries, Distinct, All,
}
use cpa_antigravity_quota_gu.Guard.Records.{Entry}
use cpa_antigravity_quota_gu.Guard.Engine.{entry_key}
use cpa_antigravity_quota_gu.Guard.Entries.{entry_less, insert_sorted, sorted_entries}

abbrev pub key_of : Entry → Text
key_of x = entry_key x.auth_index x.model_group

-- The first entry of a list under a key.
unfoldable pub find_key : Text → List Entry → Option Entry
unfolding text_eq
find_key k [] = none
find_key k (x ∷ xs) = if text_eq (key_of x) k then some x else find_key k xs

-- No key stands twice.
abbrev pub Unlike : Entry → Entry → Type 0
Unlike x y = text_eq (key_of x) (key_of y) ≡ false

abbrev pub Unique : List Entry → Type 0
Unique [] = Unit
Unique (x ∷ xs) = All (Unlike x) xs × Unique xs

module _ (P : Entry → Type 0) where
  pub All-insert_sorted :
      (x : Entry) (ys : List Entry) → P x → All P ys → All P (insert_sorted x ys)
  unfolding insert_sorted
  All-insert_sorted x [] p h = (p, tt)
  All-insert_sorted x (y ∷ ys) p h = elim (Bool-cases (entry_less y x)) [
    | inl less ↦ rw less (h.0, All-insert_sorted x ys p h.1)
    | inr more ↦ rw more (p, h)
  ]

Unlike-sym : (x y : Entry) → Unlike x y → Unlike y x
Unlike-sym x y h =
    ground (arith, text_eq_iff (key_of x) (key_of y), text_eq_iff (key_of y) (key_of x))

Unique-insert_sorted :
    (x : Entry) (ys : List Entry) → All (Unlike x) ys → Unique ys → Unique (insert_sorted x ys)
unfolding insert_sorted
Unique-insert_sorted x [] a u = (tt, tt)
Unique-insert_sorted x (y ∷ ys) a u = elim (Bool-cases (entry_less y x)) [
  | inl less ↦ rw less (
    All-insert_sorted (Unlike y) x ys (Unlike-sym x y a.0) u.0,
    Unique-insert_sorted x ys a.1 u.1,
  )
  | inr more ↦ rw more (a, u)
]

find_key-insert_sorted :
    (k : Text) (x : Entry) (ys : List Entry)
    → All (Unlike x) ys
    → find_key k (insert_sorted x ys) ≡ (if text_eq (key_of x) k then some x else find_key k ys)
unfolding insert_sorted find_key
find_key-insert_sorted k x [] a = refl
find_key-insert_sorted k x (y ∷ ys) a = ground (
  arith,
  find_key-insert_sorted k x ys a.1,
  text_eq_iff (key_of x) k,
  text_eq_iff (key_of y) k,
  text_eq_iff (key_of x) (key_of y),
)

-- An entry whose key is missing from a list is unlike all of its entries.
missing-Unlike : (x : Entry) (ys : List Entry) → find_key (key_of x) ys ≡ none → All (Unlike x) ys
unfolding find_key
missing-Unlike x [] h = tt
missing-Unlike x (y ∷ ys) h = elim (Bool-cases (text_eq (key_of y) (key_of x))) [
  | inl same ↦ cc (rw same at h)
  | inr other ↦ (Unlike-sym y x other, missing-Unlike x ys (rw other at h))
]

-- The sorted list has what the map has under each key, each key once.
pub find_key-sorted_entries :
    (m : Dict Entry)
    → AllEntries (λ k x. k ≡ key_of x) m
    → Distinct m
    → ((k : Text) → find_key k (sorted_entries m) ≡ lookup k m) × Unique (sorted_entries m)
unfolding sorted_entries lookup
find_key-sorted_entries [] f d = (λ k. unfold find_key in refl, tt)
find_key-sorted_entries ((j, x) ∷ m) f d =
    let (same, unique) = find_key-sorted_entries m f.1 d.1 in
    let e : find_key (key_of x) (sorted_entries m) ≡ none =
      subst (λ i. find_key i (sorted_entries m) ≡ none) f.0 (same j ∙ d.0) in
    let a = missing-Unlike x (sorted_entries m) e in
    (
      λ k.
          subst
            (λ i.
              find_key k (insert_sorted x (sorted_entries m))
              ≡ (if text_eq i k then some x else lookup k m))
            (sym f.0) (rw (find_key-insert_sorted k x (sorted_entries m) a, same k) refl),
      Unique-insert_sorted x (sorted_entries m) a unique,
    )

pub All-sorted_entries :
    (P : Entry → Type 0) (m : Dict Entry) → AllEntries (λ k x. P x) m → All P (sorted_entries m)
unfolding sorted_entries
All-sorted_entries P [] h = tt
All-sorted_entries P ((k, x) ∷ m) (h, hs) =
    All-insert_sorted P x (sorted_entries m) h (All-sorted_entries P m hs)
