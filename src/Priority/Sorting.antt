-- ===== src/Priority/Sorting.antt =====
-- slices.SortStableFunc as internal/priority uses it: it keeps the elements.
use mathlib.Core.List.{Perm, perm_middle, reverse_aux}
use mathlib.Core.List.Perm
use cpa_antigravity_quota_gu.Prelude.{
  ◌≡◌, refl, ap, subst, inl, inr, List, [], ◌∷◌, ◌++◌, reverse, ℤ, pos, ltb_ℤ, Bool-cases, All,
}
use cpa_antigravity_quota_gu.Priority.Order.{insert_last, sort_onto, sort_stable}

append-nil {ℓ} : {A : Type ℓ} (xs : List A) → xs ++ [] ≡ xs
append-nil [] = refl
append-nil (x ∷ xs) = ap (λ ys. x ∷ ys) (append-nil xs)

module _ {ℓ} {A : Type ℓ} where
  Perm-reverse_aux : (xs r : List A) → Perm (xs ++ r) (reverse_aux xs r)
  Perm-reverse_aux [] r = Perm.refl r
  Perm-reverse_aux (x ∷ xs) r =
      Perm.trans (Perm.symm (perm_middle xs r)) (Perm-reverse_aux xs (x ∷ r))

module _ {ℓ} {A : Type ℓ} (compare : A → A → ℤ) where
  Perm-insert_last : (x : A) (ys : List A) → Perm (x ∷ ys) (insert_last compare x ys)
  unfolding insert_last
  Perm-insert_last x [] = Perm.refl (x ∷ [])
  Perm-insert_last x (y ∷ ys) = elim (Bool-cases (ltb_ℤ (compare x y) (pos 0))) [
    | inl less ↦ rw less (Perm.trans (Perm.swap y x ys) (Perm.cons y (Perm-insert_last x ys)))
    | inr more ↦ rw more (Perm.refl (x ∷ y ∷ ys))
  ]

  Perm-sort_onto : (sorted xs : List A) → Perm (xs ++ sorted) (sort_onto compare sorted xs)
  unfolding sort_onto
  Perm-sort_onto sorted [] = Perm.refl sorted
  Perm-sort_onto sorted (x ∷ xs) = Perm.trans (Perm.symm (perm_middle xs sorted)) (
      Perm.trans (Perm.append_left xs (Perm-insert_last x sorted))
        (Perm-sort_onto (insert_last compare x sorted) xs))

  pub Perm-sort_stable : (xs : List A) → Perm xs (sort_stable compare xs)
  unfolding sort_stable
  Perm-sort_stable xs =
      let sorted = sort_onto compare [] xs in
      Perm.trans (subst (λ ys. Perm ys sorted) (append-nil xs) (Perm-sort_onto [] xs))
        (subst (λ ys. Perm ys (reverse sorted)) (append-nil sorted) (Perm-reverse_aux sorted []))

-- What holds of every element holds of every element of the sorted list.
module _ {ℓ κ} {A : Type ℓ} (P : A → Type κ) where
  All-reverse_aux : (xs r : List A) → All P xs → All P r → All P (reverse_aux xs r)
  All-reverse_aux [] r h k = k
  All-reverse_aux (x ∷ xs) r h k = All-reverse_aux xs (x ∷ r) h.1 (h.0, k)

  module _ (compare : A → A → ℤ) where
    All-insert_last : (x : A) (ys : List A) → P x → All P ys → All P (insert_last compare x ys)
    unfolding insert_last
    All-insert_last x [] p h = (p, tt)
    All-insert_last x (y ∷ ys) p h = elim (Bool-cases (ltb_ℤ (compare x y) (pos 0))) [
      | inl less ↦ rw less (h.0, All-insert_last x ys p h.1)
      | inr more ↦ rw more (p, h)
    ]

    All-sort_onto :
        (sorted xs : List A) → All P sorted → All P xs → All P (sort_onto compare sorted xs)
    unfolding sort_onto
    All-sort_onto sorted [] h k = h
    All-sort_onto sorted (x ∷ xs) h k =
        All-sort_onto (insert_last compare x sorted) xs (All-insert_last x sorted k.0 h) k.1

    pub All-sort_stable : (xs : List A) → All P xs → All P (sort_stable compare xs)
    unfolding sort_stable
    All-sort_stable xs h =
        All-reverse_aux (sort_onto compare [] xs) [] (All-sort_onto [] xs tt h) tt
