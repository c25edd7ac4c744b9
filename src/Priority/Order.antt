-- ===== src/Priority/Order.antt =====
-- internal/priority/comparator.go: the orders of the planner, and the stable sort.
use cpa_antigravity_quota_gu.Prelude.{
  Bool, false, ◌&&◌, ◌||◌, not, Option, none, some, List, [], ◌∷◌, reverse, if◌then◌else◌, ℤ, pos,
  negsuc, ltb_ℤ, eq_ℤ, ◌-ℤ◌, wrap_int, Text, text_lt,
}
use cpa_antigravity_quota_gu.Guard.Types.{Float64}
use cpa_antigravity_quota_gu.Priority.Floats.{sub_float, abs_float, less, ratio, float_zero}
use cpa_antigravity_quota_gu.Priority.Items.{PlanItem}

-- The results of a comparison: an int below, at or above zero.
abbrev pub before : ℤ
before = negsuc 0

abbrev pub behind : ℤ
behind = pos 1

-- `cmp.Compare` on strings.
unfoldable pub compare_text : Text → Text → ℤ
unfolding text_lt
compare_text s t = if text_lt s t then before else if text_lt t s then behind else pos 0

abbrev pub float_epsilon : Float64
float_epsilon = ratio 1 1000000000

-- `math.Abs(a-b) > floatEpsilon`
unfoldable pub apart : Float64 → Float64 → Bool
unfolding less abs_float sub_float ratio
apart a b = less float_epsilon (abs_float (sub_float a b))

unfoldable pub compare_healthy_candidates : PlanItem → PlanItem → ℤ
unfolding apart less compare_text
compare_healthy_candidates left right =
    if apart left.urgency right.urgency
    then (if less right.urgency left.urgency then before else behind)
    else if apart left.t5h right.t5h
    then (if less left.t5h right.t5h then before else behind)
    else compare_text left.credential.auth_index right.credential.auth_index

abbrev positive : Option ℤ → Bool
positive none = false
positive (some z) = ltb_ℤ (pos 0) z

unfoldable pub is_positive_remaining : PlanItem → Bool
unfolding less
is_positive_remaining x =
    positive x.long_window_remaining || positive x.remaining || less float_zero x.r7d

abbrev by_priority_then_index : PlanItem → PlanItem → ℤ
by_priority_then_index left right =
    if not (eq_ℤ left.priority right.priority)
    then wrap_int (right.priority -ℤ left.priority)
    else compare_text left.credential.auth_index right.credential.auth_index

unfoldable pub compare_uniqueness_candidates : PlanItem → PlanItem → ℤ
unfolding is_positive_remaining compare_healthy_candidates compare_text
compare_uniqueness_candidates left right =
    let l = left.evidence_fresh && is_positive_remaining left in
    let r = right.evidence_fresh && is_positive_remaining right in
    if l && r
    then (if left.is_boosted && not right.is_boosted
        then before
        else if not left.is_boosted && right.is_boosted
        then behind
        else compare_healthy_candidates left right)
    else if l
    then before
    else if r
    then behind
    else by_priority_then_index left right

-- The comparison of `SortPlanItems`.
unfoldable pub compare_plan_items : PlanItem → PlanItem → ℤ
unfolding compare_text
compare_plan_items left right =
    if left.evidence_fresh && not right.evidence_fresh
    then before
    else if not left.evidence_fresh && right.evidence_fresh
    then behind
    else if not (eq_ℤ left.priority right.priority)
    then wrap_int (right.priority -ℤ left.priority)
    else if left.disabled && not right.disabled
    then behind
    else if not left.disabled && right.disabled
    then before
    else compare_text left.credential.auth_index right.credential.auth_index

-- slices.SortStableFunc: the insertion sort that it is on at most 20 elements; on more, any stable
-- sort by an order gives the same list. The sorted part is kept in reverse, its last element first.
module _ {ℓ} {A : Type ℓ} (compare : A → A → ℤ) where
  unfoldable pub insert_last : A → List A → List A
  insert_last x [] = x ∷ []
  insert_last x (y ∷ ys) = if ltb_ℤ (compare x y) (pos 0) then y ∷ insert_last x ys else x ∷ y ∷ ys

  unfoldable pub sort_onto : List A → List A → List A
  unfolding insert_last
  sort_onto sorted [] = sorted
  sort_onto sorted (x ∷ xs) = sort_onto (insert_last x sorted) xs

  unfoldable pub sort_stable : List A → List A
  unfolding sort_onto
  sort_stable xs = reverse (sort_onto [] xs)

-- `SortPlanItems`
unfoldable pub sort_plan_items : List PlanItem → List PlanItem
unfolding sort_stable compare_plan_items
sort_plan_items items = sort_stable compare_plan_items items
