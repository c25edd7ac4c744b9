-- ===== src/Priority/Members.antt =====
-- slices.SortStableFunc loses no element, as internal/priority needs it for the items that it ranks.
use cpa_antigravity_quota_gu.Prelude.{◌⊎◌, inl, inr, List, [], ◌∷◌, Bool-cases, ℤ, pos, ltb_ℤ}
use mathlib.Core.List.{reverse_aux}
use cpa_antigravity_quota_gu.Priority.Floats.{less}
use cpa_antigravity_quota_gu.Priority.Order.{insert_last, sort_onto, sort_stable}

-- An element of a list, up to a test of its own.
abbrev pub Has {ℓ} : {A : Type ℓ} → (A → Type 0) → List A → Type 0
Has P [] = ⊥
Has P (x ∷ xs) = P x ⊎ Has P xs

module _ {ℓ} {A : Type ℓ} (P : A → Type 0) where
  Has-reverse_aux : (xs r : List A) → Has P xs ⊎ Has P r → Has P (reverse_aux xs r)
  Has-reverse_aux [] r (inr h) = h
  Has-reverse_aux [] r (inl h) = absurd h
  Has-reverse_aux (x ∷ xs) r (inl (inl p)) = Has-reverse_aux xs (x ∷ r) (inr (inl p))
  Has-reverse_aux (x ∷ xs) r (inl (inr h)) = Has-reverse_aux xs (x ∷ r) (inl h)
  Has-reverse_aux (x ∷ xs) r (inr h) = Has-reverse_aux xs (x ∷ r) (inr (inr h))

  module _ (compare : A → A → ℤ) where
    Has-insert_last : (x : A) (ys : List A) → P x ⊎ Has P ys → Has P (insert_last compare x ys)
    unfolding insert_last
    Has-insert_last x [] h = h
    Has-insert_last x (y ∷ ys) h = elim (Bool-cases (ltb_ℤ (compare x y) (pos 0))) [
      | inl less ↦ rw less (below h (Has-insert_last x ys))
      | inr more ↦ rw more h
    ]
      where
        below :
            P x ⊎ Has P (y ∷ ys)
            → (P x ⊎ Has P ys → Has P (insert_last compare x ys))
            → P y ⊎ Has P (insert_last compare x ys)
        below (inl p) rest = inr (rest (inl p))
        below (inr (inl q)) rest = inl q
        below (inr (inr k)) rest = inr (rest (inr k))

    Has-sort_onto :
        (sorted xs : List A) → Has P sorted ⊎ Has P xs → Has P (sort_onto compare sorted xs)
    unfolding sort_onto
    Has-sort_onto sorted [] (inl h) = h
    Has-sort_onto sorted [] (inr h) = absurd h
    Has-sort_onto sorted (x ∷ xs) (inl h) =
        Has-sort_onto (insert_last compare x sorted) xs (inl (Has-insert_last x sorted (inr h)))
    Has-sort_onto sorted (x ∷ xs) (inr (inl p)) =
        Has-sort_onto (insert_last compare x sorted) xs (inl (Has-insert_last x sorted (inl p)))
    Has-sort_onto sorted (x ∷ xs) (inr (inr h)) =
        Has-sort_onto (insert_last compare x sorted) xs (inr h)

    pub Has-sort_stable : (xs : List A) → Has P xs → Has P (sort_stable compare xs)
    unfolding sort_stable
    Has-sort_stable xs h =
        Has-reverse_aux (sort_onto compare [] xs) [] (inl (Has-sort_onto [] xs (inr h)))
