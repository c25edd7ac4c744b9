-- ===== src/Guard/Edits/Picks.antt =====
-- internal/guard/pick.go: the one entry that Pick or ManualHalfOpen writes.
use cpa_antigravity_quota_gu.Prelude.{
  ℕ, ◌≡◌, refl, ◌∙◌, subst, ◌⊎◌, inl, inr, Option, none, some, Bool, true, ◌||◌, not, Bool-cases,
  Option-cases, arith, Text, lookup, trim_space, is_empty, All-get_elem?,
}
use cpa_antigravity_quota_gu.Guard.Types.{
  Time, ModelGroup, group_valid, State, opened, half_open, Policy, is_enforce,
}
use cpa_antigravity_quota_gu.Guard.Records.{Config, Entry, PickRequest}
use cpa_antigravity_quota_gu.Guard.Classify.{
  classify_model, route_includes_antigravity, group_enforced,
}
use cpa_antigravity_quota_gu.Guard.Engine.{Engine, entry_key, mark_dirty}
use cpa_antigravity_quota_gu.Guard.Breaker.{or_wall}
use cpa_antigravity_quota_gu.Guard.Candidates.{PickCandidate, recovered, lease_over}
use cpa_antigravity_quota_gu.Guard.Pick.{
  lease_entry, take_lease, advance_cursor, select_available, pick_none, pick_selected, pick_group,
  pick_classified, pick_locked, record_pick, normalized_request, pick, manual_refusal, manual_entry,
  manual_found, manual_half_open, count_scan,
}
use cpa_antigravity_quota_gu.Guard.Selection.{
  AdmitsEntry, foreign, guarded, Admitted, Usable, lookup_entry-lookup, scan-AllAdmitted,
}
use cpa_antigravity_quota_gu.Guard.Selection.Outcome.{scanned, auth_policy, counted_pick}
use cpa_antigravity_quota_gu.Guard.Selection.Pure.{counted_model, pick_unknown_model-SameBreaker}
use cpa_antigravity_quota_gu.Guard.Edits.{Edit, kept, wrote, Edit-fields, SameSetup, after}

-- An entry whose time has come is leased to the request.
abbrev pub Leased : PickRequest → Config → Entry → Entry → Type 0
Leased r c x y =
    (((x.state ≡ opened) × (recovered x r.now ≡ true))
      ⊎ ((x.state ≡ half_open) × (lease_over x r.now ≡ true)))
    × (y ≡ lease_entry r c x)

module _ (wall : Time) (r : PickRequest) (g : ModelGroup) (policy : Policy) (e : Engine) where
  Usable-recovered :
      (t : State) (x : Entry) (lease : Bool)
      → x.state ≡ t
      → lease ≡ true
      → Usable wall r e g policy t x lease
      → ((x.state ≡ opened) × (recovered x r.now ≡ true))
        ⊎ ((x.state ≡ half_open) × (lease_over x r.now ≡ true))
  Usable-recovered t x lease h l u = ground arith

  Admitted-entry :
      (p : PickCandidate) (k : Text) (x : Entry)
      → Admitted wall r e g policy p
      → p.needs_lease ≡ true
      → p.found ≡ some (k, x)
      → (lookup k e.entries ≡ some x) × Leased r e.config x (lease_entry r e.config x)
  Admitted-entry p k x (c, _, foreign _ _ _ free) n f = cc
  Admitted-entry p k x (c, _, guarded _ l u) n f = (
    lookup_entry-lookup c.auth_index c.auth_id g e k x (l ∙ f),
    (
      Usable-recovered x.state x p.needs_lease refl n
          (subst (λ o. AdmitsEntry wall r e g policy c p o) f u).1,
      refl,
    ),
  )

  -- The engine after a choice: the entry that the choice leases, if any.
  take_lease-Edit :
      (p : PickCandidate) (e₁ : Engine)
      → e₁.entries ≡ e.entries
      → e₁.config ≡ e.config
      → Admitted wall r e g policy p
      → Edit (Leased r e.config) e (take_lease wall r p e₁)
  unfolding take_lease mark_dirty
  take_lease-Edit p e₁ h c a = elim (Bool-cases p.needs_lease) [
    | inr none_needed ↦ rw none_needed (kept h)
    | inl probes ↦ rw probes (elim (Option-cases p.found) [
      | inl missing ↦ rw missing (kept h)
      | inr ((k, x), located) ↦
          let (found, leased) = Admitted-entry p k x a probes located in
          rw located (wrote k x (lease_entry r e.config x) found leased (rw (h, c) refl))
    ])
  ]

  take_lease-SameSetup : (p : PickCandidate) (e₁ : Engine) → SameSetup e₁ (take_lease wall r p e₁)
  unfolding take_lease mark_dirty
  take_lease-SameSetup p e₁ = ground arith

  pick_group-Edit : Edit (Leased r e.config) e (pick_group wall r g policy e).0
  unfolding pick_group pick_none pick_selected advance_cursor
  pick_group-Edit =
      let s = scanned wall r e g policy in
      elim (Option-cases (select_available g s e)) [
        | inl missing ↦ rw missing (kept (ground arith))
        | inr (p, chosen) ↦ rw chosen (elim (Bool-cases (is_enforce r.mode)) [
          | inr observes ↦ rw observes (kept refl)
          | inl enforces ↦ rw enforces (
              take_lease-Edit p (advance_cursor g (count_scan s e)) refl refl (
                All-get_elem? (Admitted wall r e g policy) s.available _ p
                  (scan-AllAdmitted wall r e g policy) (unfold select_available in chosen)))
        ])
      ]

  pick_group-SameSetup : SameSetup e (pick_group wall r g policy e).0
  unfolding pick_group pick_none pick_selected take_lease advance_cursor
  pick_group-SameSetup = ground arith

pick_classified-Edit :
    (wall : Time) (r : PickRequest) (g : Option ModelGroup) (e : Engine)
    → Edit (Leased r e.config) e (pick_classified wall r g e).0
      × SameSetup e (pick_classified wall r g e).0
unfolding pick_classified
pick_classified-Edit wall r none e =
    let same = pick_unknown_model-SameBreaker r _ (counted_model e) in
    (kept same.same_entries, record { same_config = same.same_config; same_auth = same.same_auth })
pick_classified-Edit wall r (some g) e = elim (Bool-cases (group_enforced g r.enforced_groups)) [
  | inl enforced ↦ rw enforced (
    pick_group-Edit wall r g (auth_policy r e) e,
    pick_group-SameSetup wall r g (auth_policy r e) e,
  )
  | inr free ↦ rw free (kept refl, record { same_config = refl; same_auth = refl })
]

-- Pick changes no setting and no identity, and of the entries at most one whose recovery time has
-- come, or whose lease is over, which it leases to the request.
pub pick-Edit :
    (wall : Time) (latency : ℕ) (request : PickRequest) (e : Engine)
    → let r = normalized_request wall request in
      let e' = (pick wall latency request e).0 in Edit (Leased r e.config) e e' × SameSetup e e'
unfolding pick pick_locked record_pick
pick-Edit wall latency request e =
    let r = normalized_request wall request in
    elim (Bool-cases (route_includes_antigravity r)) [
      | inr other ↦ rw other (kept refl, record { same_config = refl; same_auth = refl })
      | inl ours ↦
          let (edit, setup) =
            pick_classified-Edit wall r (classify_model r.model) (counted_pick e) in
          rw ours (
            Edit-fields (Leased r e.config) (counted_pick e) e _ _ refl refl edit,
            record { same_config = setup.same_config; same_auth = setup.same_auth },
          )
    ]

-- An entry whose breaker is open or whose lease is over, made ready for one manual probe.
abbrev pub Readied : Time → Entry → Entry → Type 0
Readied now x y = (manual_refusal x now ≡ none) × (y ≡ manual_entry x)

pub manual_half_open-Edit :
    (wall : Time) (index : Text) (g : ModelGroup) (now : Time) (e : Engine)
    → let e' = after e (manual_half_open wall index g now e) in
      Edit (Readied (or_wall wall now)) e e' × SameSetup e e'
unfolding manual_half_open manual_found mark_dirty
manual_half_open-Edit wall index g now e =
    let bad = is_empty (trim_space index) || not (group_valid g) in
    let key = entry_key (trim_space index) g in
    let same : SameSetup e e = record { same_config = refl; same_auth = refl } in
    elim (Bool-cases bad) [
      | inl refused ↦ rw refused (kept refl, same)
      | inr good ↦ rw good (elim (Option-cases (lookup key e.entries)) [
        | inl missing ↦ rw missing (kept refl, same)
        | inr (x, found) ↦ rw found (elim (Option-cases (manual_refusal x (or_wall wall now))) [
          | inr (refused, why) ↦ rw (why, manual_found) (kept refl, same)
          | inl free ↦
              rw (free, manual_found)
                (
                  wrote key x (manual_entry x) found (free, refl) refl,
                  record { same_config = refl; same_auth = refl },
                )
        ])
      ])
    ]
