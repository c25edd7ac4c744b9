-- ===== src/Guard/Store/RoundTrip.antt =====
-- internal/guard/store.go: what Save writes Load accepts, and it gives the same entries.
use cpa_antigravity_quota_gu.Prelude.{
  ◌≡◌, refl, sym, ap, ◌∙◌, subst, true, false, not, inl, inr, Option, none, some, some_injective,
  List, [], ◌∷◌, arith, Bool-cases, Option-cases, eq_ℤ_iff, Text, text_eq, text_eq_iff, Dict,
  lookup, lookup-insert, All,
}
use cpa_antigravity_quota_gu.Guard.Types.{returns}
use cpa_antigravity_quota_gu.Guard.Records.{Identity, Entry}
use cpa_antigravity_quota_gu.Guard.Document.{
  trim_entry, entry_invalid, identity_of, identity_eq, Checked, other_identity, other_index,
  with_entry, check_trimmed, check_entry, check_entries,
}
use cpa_antigravity_quota_gu.Guard.Store.Sorted.{key_of, find_key, Unlike, Unique}

Unlike-find_key :
    (x : Entry) (xs : List Entry) (k : Text)
    → All (Unlike x) xs
    → text_eq (key_of x) k ≡ true
    → find_key k xs ≡ none
unfolding find_key
Unlike-find_key x [] k a h = refl
Unlike-find_key x (y ∷ ys) k a h = ground (
  arith,
  Unlike-find_key x ys k a.1 h,
  text_eq_iff (key_of x) k,
  text_eq_iff (key_of y) k,
  text_eq_iff (key_of x) (key_of y),
)

identity_eq_refl : (i : Identity) → identity_eq i i ≡ true
unfolding identity_eq
identity_eq_refl i = ground (
  arith,
  text_eq_iff i.auth_id i.auth_id,
  text_eq_iff i.auth_index i.auth_index,
  text_eq_iff i.identity_fingerprint i.identity_fingerprint,
  text_eq_iff i.provider i.provider,
  eq_ℤ_iff i.priority i.priority,
)

module _ (owner : Text → Identity) (auth : Dict Text) where
  -- An entry that the checks accept: it is trimmed and in range, its account is that of its index,
  -- and its id leads to its index.
  pub record Good (x : Entry) : Type 0 where
    pub trimmed : trim_entry x ≡ x
    pub in_range : entry_invalid x ≡ false
    pub owned : identity_of x ≡ owner x.auth_index
    pub indexed : lookup x.auth_id auth ≡ some x.auth_index

  -- The maps of the checks agree with both.
  pub record Agrees (s : Checked) : Type 0 where
    pub identities : (j : Text) (i : Identity) → lookup j s.identity_by_index ≡ some i → i ≡ owner j
    pub ids : (d j : Text) → lookup d s.auth_by_id ≡ some j → lookup d auth ≡ some j

  same_identity :
      (x : Entry) (s : Checked)
      → Good x
      → Agrees s
      → other_identity (lookup x.auth_index s.identity_by_index) (identity_of x) ≡ false
  same_identity x s g a = elim (Option-cases (lookup x.auth_index s.identity_by_index)) [
    | inl missing ↦ rw missing refl
    | inr (i, found) ↦
        let e : identity_of x ≡ i = g.owned ∙ sym (a.identities x.auth_index i found) in
        rw found (ap not (subst (λ j. identity_eq i j ≡ true) (sym e) (identity_eq_refl i)))
  ]

  same_index :
      (x : Entry) (s : Checked)
      → Good x
      → Agrees s
      → other_index (lookup x.auth_id s.auth_by_id) x.auth_index ≡ false
  same_index x s g a = elim (Option-cases (lookup x.auth_id s.auth_by_id)) [
    | inl missing ↦ rw missing refl
    | inr (j, found) ↦
        let e : j ≡ x.auth_index = some_injective (sym (a.ids x.auth_id j found) ∙ g.indexed) in
        rw found (ap not ((text_eq_iff j x.auth_index).1 e))
  ]

  check_trimmed-Good :
      (x : Entry) (s : Checked)
      → Good x
      → Agrees s
      → lookup (key_of x) s.entries ≡ none
      → check_trimmed x s ≡ returns (with_entry x s)
  unfolding check_trimmed
  check_trimmed-Good x s g a new =
      rw (g.in_range, new, same_identity x s g a, same_index x s g a) refl

  check_entry-Good :
      (x : Entry) (s : Checked)
      → Good x
      → Agrees s
      → lookup (key_of x) s.entries ≡ none
      → check_entry x s ≡ returns (with_entry x s)
  check_entry-Good x s g a new =
      let round : check_entry x s ≡ check_trimmed (trim_entry x) s = unfold check_entry in refl in
      round ∙ ap (λ y. check_trimmed y s) g.trimmed ∙ check_trimmed-Good x s g a new

  with_entry-Agrees : (x : Entry) (s : Checked) → Good x → Agrees s → Agrees (with_entry x s)
  with_entry-Agrees x s g a = record {
    identities = λ j i h. elim (Bool-cases (text_eq x.auth_index j)) [
      | inl same ↦
          let e : x.auth_index ≡ j = (text_eq_iff x.auth_index j).0 same in
          some_injective (
            sym h ∙ lookup-insert x.auth_index j (identity_of x) s.identity_by_index ∙ rw same refl)
          ∙ g.owned
          ∙ ap owner e
      | inr other ↦
          a.identities j i (
            sym (rw other at (lookup-insert x.auth_index j (identity_of x) s.identity_by_index))
            ∙ h)
    ];
    ids = λ d j h. elim (Bool-cases (text_eq x.auth_id d)) [
      | inl same ↦
          let e : x.auth_id ≡ d = (text_eq_iff x.auth_id d).0 same in
          subst (λ c. lookup c auth ≡ some j) e
            (g.indexed
              ∙ (sym (rw same at (lookup-insert x.auth_id d x.auth_index s.auth_by_id)) ∙ h))
      | inr other ↦
          a.ids d j (sym (rw other at (lookup-insert x.auth_id d x.auth_index s.auth_by_id)) ∙ h)
    ];
  }

  -- The entries of a list over those of a map.
  abbrev pub over : Option Entry → Option Entry → Option Entry
  over (some x) o = some x
  over none o = o

  abbrev pub New : Checked → Entry → Type 0
  New s x = lookup (key_of x) s.entries ≡ none

  with_entry-New :
      (x : Entry) (s : Checked) (ys : List Entry)
      → All (Unlike x) ys
      → All (New s) ys
      → All (New (with_entry x s)) ys
  with_entry-New x s [] a h = tt
  with_entry-New x s (y ∷ ys) (a, rest) (h, hs) =
      (lookup-insert (key_of x) (key_of y) x s.entries ∙ rw a h, with_entry-New x s ys rest hs)

  find_key-over :
      (k : Text) (x : Entry) (xs : List Entry) (s : Checked)
      → All (Unlike x) xs
      → over (find_key k xs) (lookup k (with_entry x s).entries)
        ≡ over (find_key k (x ∷ xs)) (lookup k s.entries)
  unfolding find_key
  find_key-over k x xs s a = elim (Bool-cases (text_eq (key_of x) k)) [
    | inl same ↦
        let e = Unlike-find_key x xs k a same in
        rw (same, e, lookup-insert (key_of x) k x s.entries) (rw same refl)
    | inr other ↦ rw (other, lookup-insert (key_of x) k x s.entries) (rw other refl)
  ]

  pub check_entries-Good :
      (xs : List Entry) (s : Checked)
      → All Good xs
      → Unique xs
      → Agrees s
      → All (New s) xs
      → (s' : Checked) × (check_entries xs s ≡ returns s')
        × ((k : Text) → lookup k s'.entries ≡ over (find_key k xs) (lookup k s.entries))
  unfolding check_entries
  check_entries-Good [] s g u a n = (s, refl, λ k. unfold find_key in refl)
  check_entries-Good (x ∷ xs) s (g, gs) (u, us) a (n, ns) =
      let (s', run, same) =
        check_entries-Good xs (with_entry x s) gs us (with_entry-Agrees x s g a)
          (with_entry-New x s xs u ns) in
      (s', rw (check_entry-Good x s g a n) run, λ k. same k ∙ find_key-over k x xs s u)
