-- ===== src/Priority/Placed.antt =====
-- internal/priority/planner.go: the priority that a plan gives to each kind of account.
use cpa_antigravity_quota_gu.Prelude.{
  ℕ, zero, suc, ◌≡◌, refl, sym, ap, ◌∙◌, subst, true, false, ◌&&◌, inl, inr, some, some_injective,
  List, [], ◌∷◌, arith, Bool-cases, ℤ, Text, get_elem?, if◌then◌else◌, lookup,
}
use cpa_antigravity_quota_gu.Priority.Items.{
  QuotaState, quota_unknown, quota_healthy, quota_short_depleted, quota_weekly_depleted, PlanItem,
  Options, depleted_priority,
}
use cpa_antigravity_quota_gu.Priority.Plan.{
  is_active, in_time, in_cooldown, cooled, cool_items, ranked,
}
use cpa_antigravity_quota_gu.Priority.Ranks.{InRange}

-- An item as evidence leaves it, before the ranking.
abbrev pub FitBy : QuotaState → PlanItem → Type 0
FitBy quota_weekly_depleted x = (x.priority ≡ depleted_priority) × (x.disabled ≡ true)
FitBy quota_short_depleted x = (x.priority ≡ depleted_priority) × (x.disabled ≡ false)
FitBy quota_healthy x = (x.disabled ≡ false) × (x.has_quota_evidence ≡ true)
FitBy quota_unknown x = (x.priority ≡ x.credential.priority) × (x.disabled ≡ x.credential.disabled)

abbrev pub Fit : PlanItem → Type 0
Fit x = FitBy x.quota_state x

-- What a plan makes of an account: one whose week is used up is disabled at priority -1, one whose
-- short window is used up stays enabled at -1, one with quota left is enabled, at -1 in its
-- cooldown and from 1 to 999 otherwise, and one without evidence keeps what the host has.
abbrev pub PlacedBy : Options → QuotaState → PlanItem → Type 0
PlacedBy o quota_weekly_depleted x = (x.priority ≡ depleted_priority) × (x.disabled ≡ true)
PlacedBy o quota_short_depleted x = (x.priority ≡ depleted_priority) × (x.disabled ≡ false)
PlacedBy o quota_healthy x =
    (x.disabled ≡ false)
    × (in_cooldown o x ≡ true → x.priority ≡ depleted_priority)
    × (in_cooldown o x ≡ false → InRange x.priority)
PlacedBy o quota_unknown x =
    (x.priority ≡ x.credential.priority) × (x.disabled ≡ x.credential.disabled)

abbrev pub Placed : Options → PlanItem → Type 0
Placed o x = PlacedBy o x.quota_state x

in_cooldown-credential :
    (o : Options) (x z : PlanItem) → z.credential ≡ x.credential → in_cooldown o z ≡ in_cooldown o x
unfolding in_cooldown
in_cooldown-credential o x z e =
    ap (λ c. in_time o.now (lookup c.auth_index o.cooldown_auth_indexes)) e

-- Ranks and cooldowns leave the account and the state that evidence gave it.
pub record From (x z : PlanItem) : Type 0 where
  pub state : z.quota_state ≡ x.quota_state
  pub account : z.credential ≡ x.credential

active_healthy : (x : PlanItem) → is_active x ≡ true → x.quota_state ≡ quota_healthy
active_healthy x h = ground arith

pub ranked-Placed :
    (o : Options) (x z : PlanItem) (p : ℤ) (reason : Text)
    → From x z
    → is_active x ≡ true
    → in_cooldown o x ≡ false
    → InRange p
    → Placed o (ranked reason p z)
ranked-Placed o x z p reason f active warm range =
    subst (λ q. PlacedBy o q (ranked reason p z)) (sym (f.state ∙ active_healthy x active))
      (refl, λ cold. cc (in_cooldown-credential o x (ranked reason p z) f.account), λ _. range)

pub cooled-Placed :
    (o : Options) (x : PlanItem) → is_active x ≡ true → in_cooldown o x ≡ true → Placed o (cooled x)
cooled-Placed o x active cold =
    subst (λ q. PlacedBy o q (cooled x)) (sym (active_healthy x active))
      (refl, λ _. refl, λ warm. cc (in_cooldown-credential o x (cooled x) refl))

pub idle-Placed :
    (o : Options) (q : QuotaState) (x : PlanItem)
    → x.quota_state ≡ q
    → FitBy q x
    → is_active x ≡ false
    → PlacedBy o q x
idle-Placed o quota_weekly_depleted x e h idle = h
idle-Placed o quota_short_depleted x e h idle = h
idle-Placed o quota_unknown x e h idle = h
idle-Placed o quota_healthy x e h idle = absurd (ground (arith, e))

pub cool_items-get :
    (o : Options) (xs : List PlanItem) (n : ℕ) (y : PlanItem)
    → get_elem? (cool_items o xs) n ≡ some y
    → (x : PlanItem) × (get_elem? xs n ≡ some x)
      × (y ≡ (if is_active x && in_cooldown o x then cooled x else x))
unfolding cool_items
cool_items-get o [] n y at = cc
cool_items-get o (x ∷ xs) zero y at = (x, refl, sym (some_injective at))
cool_items-get o (x ∷ xs) (suc n) y at = cool_items-get o xs n y at

pub cool-From :
    (o : Options) (x : PlanItem) → From x (if is_active x && in_cooldown o x then cooled x else x)
cool-From o x = elim (Bool-cases (is_active x && in_cooldown o x)) [
  | inl cold ↦ rw cold (record { state = refl; account = refl })
  | inr warm ↦ rw warm (record { state = refl; account = refl })
]
