-- ===== src/Guard/Roster/Accepted.antt =====
-- internal/guard/engine.go: a roster that ReplaceRoster accepts has no index twice.
use cpa_antigravity_quota_gu.Prelude.{
  ℕ, zero, suc, ◌≡◌, refl, sym, ap, ◌∙◌, subst, false, ◌||◌, inl, inr, some, some_injective, List,
  [], ◌∷◌, arith, Bool-cases, Text, text_eq_iff, All, All-get_elem?, get_elem?,
}
use cpa_antigravity_quota_gu.Guard.Types.{
  Fallible, returns, fails, returns_injective, fails_ne_returns, ◌>>=◌,
}
use cpa_antigravity_quota_gu.Guard.Records.{Identity}
use cpa_antigravity_quota_gu.Guard.Roster.{seen, normalize_identity, normalize_roster}

-- An item whose index is none of those met before it.
abbrev Unseen : List Text → Identity → Type 0
Unseen indexes j = seen j.auth_index indexes ≡ false

Unseen-less :
    (k : Text) (indexes : List Text) (js : List Identity)
    → All (Unseen (k ∷ indexes)) js
    → All (Unseen indexes) js
unfolding seen
Unseen-less k indexes [] h = tt
Unseen-less k indexes (j ∷ js) (h, hs) = (ground arith, Unseen-less k indexes js hs)

abbrev pub Apart : List Identity → Type 0
Apart is =
    (m n : ℕ) (i j : Identity)
    → get_elem? is m ≡ some i
    → get_elem? is n ≡ some j
    → i.auth_index ≡ j.auth_index
    → i ≡ j

Unseen-ne :
    (i j : Identity) (indexes : List Text)
    → Unseen (i.auth_index ∷ indexes) j
    → ¬ (i.auth_index ≡ j.auth_index)
unfolding seen
Unseen-ne i j indexes h e = ground (arith, text_eq_iff i.auth_index j.auth_index)

cons-Apart :
    (i : Identity) (is : List Identity) (indexes : List Text)
    → All (Unseen (i.auth_index ∷ indexes)) is
    → Apart is
    → Apart (i ∷ is)
cons-Apart i is indexes h a zero zero x y p q e = some_injective (sym p ∙ q)
cons-Apart i is indexes h a (suc m) (suc n) x y p q e = a m n x y p q e
cons-Apart i is indexes h a zero (suc n) x y p q e = absurd (
    Unseen-ne i y indexes (All-get_elem? (Unseen (i.auth_index ∷ indexes)) is n y h q)
      (ap (λ z. z.auth_index) (some_injective p) ∙ e))
cons-Apart i is indexes h a (suc m) zero x y p q e = absurd (
    Unseen-ne i x indexes (All-get_elem? (Unseen (i.auth_index ∷ indexes)) is m x h p)
      (ap (λ z. z.auth_index) (some_injective q) ∙ sym e))

-- The list that the rest of the loop returns, with the item before it.
prepend-Apart :
    (indexes : List Text) (i : Identity) (r : Fallible (List Identity)) (items : List Identity)
    → seen i.auth_index indexes ≡ false
    → ((js : List Identity) → r ≡ returns js → All (Unseen (i.auth_index ∷ indexes)) js × Apart js)
    → (r >>= λ js. returns (i ∷ js)) ≡ returns items
    → All (Unseen indexes) items × Apart items
prepend-Apart indexes i (fails x) items new rest h = absurd (fails_ne_returns h)
prepend-Apart indexes i (returns js) items new rest h =
    let (unseen, apart) = rest js refl in
    subst (λ is. All (Unseen indexes) is × Apart is) (returns_injective h)
      ((new, Unseen-less i.auth_index indexes js unseen), cons-Apart i js indexes unseen apart)

-- What the loop over the identities returns has no index twice, and none of those met before.
pub normalize_roster-Apart :
    (sha : Text → Text) (indexes ids : List Text) (is items : List Identity)
    → normalize_roster sha indexes ids is ≡ returns items
    → All (Unseen indexes) items × Apart items
unfolding normalize_roster
normalize_roster-Apart sha indexes ids [] items h =
    subst (λ is. All (Unseen indexes) is × Apart is) (returns_injective h) (tt, λ m n i j p q e. cc)
normalize_roster-Apart sha indexes ids (identity ∷ rest) items h =
    go (λ xs ys js. normalize_roster-Apart sha xs ys rest js) (normalize_identity sha identity) refl
  where
    go :
        ((xs ys : List Text) (js : List Identity)
          → normalize_roster sha xs ys rest ≡ returns js
          → All (Unseen xs) js × Apart js)
        → (r : Fallible Identity) → normalize_identity sha identity ≡ r
        → All (Unseen indexes) items × Apart items
    go ih (fails x) n = absurd (fails_ne_returns (rw n at h))
    go ih (returns i) n = elim (Bool-cases (seen i.auth_index indexes || seen i.auth_id ids)) [
      | inl again ↦ absurd (fails_ne_returns (rw (n, again) at h))
      | inr new ↦
          prepend-Apart indexes i
            (normalize_roster sha (i.auth_index ∷ indexes) (i.auth_id ∷ ids) rest) items
            (ground arith) (ih (i.auth_index ∷ indexes) (i.auth_id ∷ ids)) (rw (n, new) at h)
    ]
