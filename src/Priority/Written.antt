-- ===== src/Priority/Written.antt =====
-- internal/priority/planner.go: what the ranks of a tier leave at each place of the items.
use cpa_antigravity_quota_gu.Prelude.{
  ℕ, zero, suc, ◌≡◌, refl, sym, ap, ◌∙◌, subst, Bool, ◌⊎◌, inl, inr, some, some_injective, List, [],
  ◌∷◌, arith, ℤ, Text, All, get_elem?,
}
use cpa_antigravity_quota_gu.Priority.Items.{PlanItem, Options}
use cpa_antigravity_quota_gu.Priority.Plan.{ranked, write_rank, write_ranks}
use cpa_antigravity_quota_gu.Priority.Members.{Has}
use cpa_antigravity_quota_gu.Priority.Ranks.{InRange, Picked, Fits}

-- A write at a place, and what stands at any place after it.
write_rank-get :
    (reason : Text) (m : ℕ) (q : ℤ) (xs : List PlanItem) (n : ℕ) (y : PlanItem)
    → get_elem? (write_rank reason m q xs) n ≡ some y
    → ((x : PlanItem) × (m ≡ n) × (get_elem? xs n ≡ some x) × (y ≡ ranked reason q x))
      ⊎ ((¬ (m ≡ n)) × (get_elem? xs n ≡ some y))
unfolding write_rank
write_rank-get reason m q [] n y at = cc
write_rank-get reason zero q (x ∷ xs) zero y at = inl (x, refl, refl, sym (some_injective at))
write_rank-get reason zero q (x ∷ xs) (suc n) y at = inr (λ e. omega arith, at)
write_rank-get reason (suc m) q (x ∷ xs) zero y at = inr (λ e. omega arith, at)
write_rank-get reason (suc m) q (x ∷ xs) (suc n) y at = elim (write_rank-get reason m q xs n y at) [
  | inl (z, e, was, is) ↦ inl (z, omega arith, was, is)
  | inr (other, was) ↦ inr (λ e. other (omega arith), was)
]

module _ (items : List PlanItem) (o : Options) (boosted : Bool) (reason : Text) where
  -- An item that a rank has been written to.
  pub record Written (zs : List PlanItem) (n : ℕ) (y : PlanItem) : Type 0 where
    pub before : PlanItem
    pub rank : ℤ
    pub stood : get_elem? zs n ≡ some before
    pub written : y ≡ ranked reason rank before
    pub range : InRange rank
    pub item : PlanItem
    pub picked : Picked items o boosted n item

  pub write_ranks-get :
      (rs : List (ℕ × ℤ)) (zs : List PlanItem) (n : ℕ) (y : PlanItem)
      → All (Fits items o boosted) rs
      → get_elem? (write_ranks reason rs zs) n ≡ some y
      → Written zs n y ⊎ ((get_elem? zs n ≡ some y) × (¬ Has (λ r. r.0 ≡ n) rs))
  unfolding write_ranks
  write_ranks-get [] zs n y f at = inr (at, λ h. h)
  write_ranks-get ((m, q) ∷ rs) zs n y (((x, picked), range), fs) at =
      elim (write_ranks-get rs (write_rank reason m q zs) n y fs at) [
        | inl w ↦ elim (write_rank-get reason m q zs n w.before w.stood) [
          | inl (z, e, was, is) ↦ inl (record {
            before = z;
            rank = w.rank;
            stood = was;
            written = w.written ∙ ap (ranked reason w.rank) is;
            range = w.range;
            item = w.item;
            picked = w.picked;
          })
          | inr (other, was) ↦ inl (record {
            before = w.before;
            rank = w.rank;
            stood = was;
            written = w.written;
            range = w.range;
            item = w.item;
            picked = w.picked;
          })
        ]
        | inr (same, none_left) ↦ elim (write_rank-get reason m q zs n y same) [
          | inl (z, e, was, is) ↦ inl (record {
            before = z;
            rank = q;
            stood = was;
            written = is;
            range = range;
            item = x;
            picked = subst (λ k. Picked items o boosted k x) e picked;
          })
          | inr (other, was) ↦ inr (was, λ h. elim h [ inl e ↦ other e | inr k ↦ none_left k ])
        ]
      ]
