-- ===== src/Runtime/Selected.antt =====
-- internal/runtime/official_handlers.go and internal/guard/pick.go together: a request that was given
-- an account is not stopped on its way.
use cpa_antigravity_quota_gu.Prelude.{
  ℕ, ◌<◌, ℤ, pos, ◌<ℤ◌, ◌≡◌, refl, sym, ◌∙◌, ap, subst, true, false, inl, inr, some, arith,
  Bool-cases, Text, lookup, All-get_elem?, length, ◌%◌, AllEntries-lookup,
}
use cpa_antigravity_quota_gu.Guard.Types.{
  Time, ModelGroup, Policy, is_fail_open, is_enforce, add_time, State, uninitialized, closed,
  opened, half_open, other_state, group_valid,
}
use cpa_antigravity_quota_gu.Guard.Records.{Entry, PickRequest, Candidate}
use cpa_antigravity_quota_gu.Guard.Classify.{classify_model}
use cpa_antigravity_quota_gu.Guard.Engine.{Engine, entry_key}
use cpa_antigravity_quota_gu.Guard.Breaker.{or_wall}
use cpa_antigravity_quota_gu.Guard.Observe.{lookup_entry, lookup_index}
use cpa_antigravity_quota_gu.Guard.Status.{snapshot}
use cpa_antigravity_quota_gu.Guard.Candidates.{PickCandidate}
use cpa_antigravity_quota_gu.Guard.Pick.{
  normalized_request, pick, pick_group, pick_selected, take_lease, advance_cursor, record_pick,
  lease_entry, select_available, cursor,
}
use cpa_antigravity_quota_gu.Guard.Keys.{entry_key-injective}
use cpa_antigravity_quota_gu.Guard.Invariant.{IsValidEngine, Filed}
use cpa_antigravity_quota_gu.Guard.Selection.{
  Admits, foreign, guarded, Admitted, AdmitsEntry, Usable, lookup_entry-lookup, scan-AllAdmitted,
}
use cpa_antigravity_quota_gu.Guard.Selection.Outcome.{
  IsGuarded, auth_policy, counted_pick, pick-pick_group, scanned,
}
use cpa_antigravity_quota_gu.Guard.Selection.Lease.{Selects, pick_leases}
use cpa_antigravity_quota_gu.Runtime.Groups.{evaluate_guard_group}
use cpa_antigravity_quota_gu.Runtime.Agreement.{
  ServesGroup, InService, Any-sorted_entries, evaluate_guard_group-ServesGroup,
}

lookup_entry-key :
    (index id : Text) (g : ModelGroup) (e : Engine) (k : Text) (x : Entry)
    → lookup_entry index id g e ≡ some (k, x)
    → k ≡ entry_key (lookup_index index id e) g
unfolding lookup_entry
lookup_entry-key index id g e k x h = ground arith

classify_model-valid :
    (model : Text) (g : ModelGroup) → classify_model model ≡ some g → group_valid g ≡ true
unfolding classify_model
classify_model-valid model g h = ground arith

later_lease : (t : Time) (d : ℤ) → pos 0 <ℤ d → t < add_time t d
later_lease t d h = ground arith

or_wall-or_wall : (wall t : Time) → or_wall wall (or_wall wall t) ≡ or_wall wall t
or_wall-or_wall wall t = ground arith

module _ (wall : Time) (latency : ℕ) (request : PickRequest) (group : ModelGroup) (e : Engine)
    (p : PickCandidate) (k : Text) (x : Entry) where
  abbrev r : PickRequest
  r = normalized_request wall request

  chosen-Admitted :
      Selects wall latency request group e p
      → Admitted wall r (counted_pick e) group (auth_policy r e) p
  unfolding select_available
  chosen-Admitted chosen =
      let s = scanned wall r (counted_pick e) group (auth_policy r e) in
      All-get_elem? (Admitted wall r (counted_pick e) group (auth_policy r e)) s.available
        (cursor group (counted_pick e) % length s.available) p
        (scan-AllAdmitted wall r (counted_pick e) group (auth_policy r e)) chosen

  -- A choice that takes no lease leaves the entries as they were.
  pick_keeps :
      IsGuarded r group
      → Selects wall latency request group e p
      → is_enforce r.mode ≡ true
      → p.needs_lease ≡ false
      → (pick wall latency request e).0.entries ≡ e.entries
  unfolding record_pick pick_group pick_selected advance_cursor take_lease
  pick_keeps g chosen mode keeps =
      rw (pick-pick_group wall latency request group e g) (rw (chosen, mode, keeps) refl)

  same_group :
      IsValidEngine e
      → IsGuarded r group
      → (c : Candidate) → lookup_entry c.auth_index c.auth_id group (counted_pick e) ≡ some (k, x)
      → x.model_group ≡ group
  same_group v g c located =
      let there = lookup_entry-lookup c.auth_index c.auth_id group (counted_pick e) k x located in
      let (valid, own) = AllEntries-lookup Filed k x e.entries v.filed there in
      let asked = lookup_entry-key c.auth_index c.auth_id group (counted_pick e) k x located in
      (entry_key-injective x.auth_index (lookup_index c.auth_index c.auth_id (counted_pick e))
        x.model_group group valid.grouped (classify_model-valid r.model group g.grouped)
        (sym own ∙ asked)).1

  abbrev after : Engine
  after = (pick wall latency request e).0

  -- The entry that serves the request, as the choice leaves it.
  abbrev InPlace : Entry → Type 0
  InPlace y =
      (lookup k after.entries ≡ some y) × ServesGroup wall r.now group e.config.evidence_max_age y

  unleased_InService :
      (t : State) (policy : Policy)
      → is_fail_open policy ≡ false
      → Usable wall r (counted_pick e) group policy t x false
      → InService wall r.now group e.config.evidence_max_age t x
  unleased_InService closed policy h u = u.0
  unleased_InService opened policy h u = cc
  unleased_InService half_open policy h u = cc
  unleased_InService uninitialized policy h u = cc
  unleased_InService (other_state _) policy h u = u

  in_place :
      IsValidEngine e
      → IsGuarded r group
      → is_enforce r.mode ≡ true
      → is_fail_open (auth_policy r e) ≡ false
      → Selects wall latency request group e p
      → p.found ≡ some (k, x)
      → (y : Entry) × InPlace y
  unfolding lease_entry
  in_place v g mode closed_policy chosen located = let (c, _, a) = chosen-Admitted chosen in go c a
    where
      go :
          (c : Candidate)
          → Admits wall r (counted_pick e) group (auth_policy r e) c p
          → (y : Entry) × InPlace y
      go c (foreign _ _ missing _) = cc
      go c (guarded ours found usable) =
          let grouped = same_group v g c (found ∙ located) in
          let (_, ok) =
            subst (AdmitsEntry wall r (counted_pick e) group (auth_policy r e) c p) located
              usable in
          elim (Bool-cases p.needs_lease) [
            | inl leased ↦ (
              lease_entry r e.config x,
              (
                pick_leases wall latency request group e p k x g mode chosen leased located,
                (grouped, later_lease r.now e.config.half_open_lease v.configured.lease),
              ),
            )
            | inr keeps ↦ (
              x,
              (
                ap (λ m. lookup k m) (pick_keeps g chosen mode keeps)
                    ∙ lookup_entry-lookup c.auth_index c.auth_id group (counted_pick e) k x
                        (found ∙ located),
                (
                  grouped,
                  unleased_InService x.state (auth_policy r e) closed_policy (
                      subst
                        (λ b. Usable wall r (counted_pick e) group (auth_policy r e) x.state x b)
                        keeps ok),
                ),
              ),
            )
          ]

  -- When Pick has selected an account of Antigravity by its entry, in enforce mode and under a
  -- policy that does not fail open, then at that time the check of the request on its way does not
  -- find its group blocked, whatever the policy for unknown accounts that it reads.
  pub pick-evaluate_guard_group :
      (policy : Text)
      → IsValidEngine e
      → IsGuarded r group
      → is_enforce r.mode ≡ true
      → is_fail_open (auth_policy r e) ≡ false
      → Selects wall latency request group e p
      → p.found ≡ some (k, x)
      → let seen_at = snapshot wall r.now after in
        let status = evaluate_guard_group wall seen_at group policy e.config.evidence_max_age in
        status.blocked ≡ false
  unfolding snapshot
  pick-evaluate_guard_group policy v g mode closed_policy chosen located =
      let (y, (there, serves)) = in_place v g mode closed_policy chosen located in
      evaluate_guard_group-ServesGroup wall (snapshot wall r.now after) group policy
        e.config.evidence_max_age
        (Any-sorted_entries (ServesGroup wall (or_wall wall r.now) group e.config.evidence_max_age)
          k y after.entries there
          (subst (λ t. ServesGroup wall t group e.config.evidence_max_age y)
            (sym (or_wall-or_wall wall request.now)) serves))
