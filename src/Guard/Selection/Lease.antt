-- ===== src/Guard/Selection/Lease.antt =====
-- internal/guard/pick.go: at most one request at a time probes a recovering account.
use cpa_antigravity_quota_gu.Prelude.{
  ℕ, ◌<◌, ◌≡◌, refl, ◌∙◌, subst, ◌≢◌, true, some, arith, Text, lookup, lookup-insert_self, ◌⊎◌, inl,
  inr, sym, some_injective,
}
use cpa_antigravity_quota_gu.Guard.Types.{
  Time, ModelGroup, Policy, opened, half_open, is_enforce, add_time,
}
use cpa_antigravity_quota_gu.Guard.Records.{Config, Entry, Candidate, PickRequest}
use cpa_antigravity_quota_gu.Guard.Engine.{Engine, mark_dirty}
use cpa_antigravity_quota_gu.Guard.Candidates.{PickCandidate, recovered, lease_over}
use cpa_antigravity_quota_gu.Guard.Edits.{Edit-lookup}
use cpa_antigravity_quota_gu.Guard.Edits.Picks.{Leased, pick-Edit}
use cpa_antigravity_quota_gu.Guard.Pick.{
  lease_entry, take_lease, advance_cursor, pick_selected, select_available, pick_group, record_pick,
  pick, normalized_request,
}
use cpa_antigravity_quota_gu.Guard.Selection.{
  Admits, foreign, guarded, Admitted, lookup_entry-lookup,
}
use cpa_antigravity_quota_gu.Guard.Selection.Outcome.{
  scanned, auth_policy, counted_pick, IsGuarded, pick-pick_group, pick-Outcome, Blocked, Selected,
}

-- An entry whose half-open lease runs at the time given.
pub record IsLeased (x : Entry) (now : Time) : Type 0 where
  pub half : x.state ≡ half_open
  pub running : now < x.half_open_lease_until

module _ (wall : Time) (request : PickRequest) (e : Engine) (group : ModelGroup)
    (policy : Policy) where
  not_usable :
      (c : Candidate) (p : PickCandidate) (k : Text) (x : Entry)
      → IsLeased x request.now
      → p.found ≡ some (k, x)
      → ¬ Admits wall request e group policy c p
  not_usable c p k x l h (foreign _ _ missing _) = cc
  not_usable c p k x l h (guarded _ _ usable) = ground arith

  -- While the lease of an entry runs, no candidate of that entry is admitted.
  pub leased_not-Admitted :
      (p : PickCandidate) (k : Text) (x : Entry)
      → IsLeased x request.now
      → p.found ≡ some (k, x)
      → ¬ Admitted wall request e group policy p
  leased_not-Admitted p k x l h (c, _, a) = not_usable c p k x l h a

not_due :
    (x : Entry) (r : PickRequest)
    → IsLeased x r.now
    → ¬ (
        ((x.state ≡ opened) × (recovered x r.now ≡ true))
        ⊎ ((x.state ≡ half_open) × (lease_over x r.now ≡ true)))
not_due x r l (inl (open_now, _)) = cc (l.half, open_now)
not_due x r l (inr (_, over)) = ground (arith, l.running)

-- No candidate is admitted by an entry that stands in the engine with a lease that runs.
not_leased :
    (wall : Time) (request : PickRequest) (e : Engine) (group : ModelGroup) (policy : Policy)
    (p : PickCandidate) (k : Text) (x y : Entry)
    → IsLeased x request.now
    → lookup k e.entries ≡ some x
    → Admitted wall request e group policy p
    → p.found ≢ some (k, y)
not_leased wall request e group policy p k x y l there (c, _, foreign _ _ missing _) h = cc
not_leased wall request e group policy p k x y l there (c, listed, guarded ours found usable) h =
    let same : x ≡ y =
      some_injective
        (sym there ∙ lookup_entry-lookup c.auth_index c.auth_id group e k y (found ∙ h)) in
    leased_not-Admitted wall request e group policy p k y
      (subst (λ z. IsLeased z request.now) same l) h (c, listed, guarded ours found usable)

-- Pick leaves an entry alone while its lease runs.
leased_kept :
    (wall : Time) (latency : ℕ) (request : PickRequest) (e : Engine) (k : Text) (x : Entry)
    → IsLeased x (normalized_request wall request).now
    → lookup k e.entries ≡ some x
    → lookup k (pick wall latency request e).0.entries ≡ some x
leased_kept wall latency request e k x l there =
    let r = normalized_request wall request in
    elim (Edit-lookup (Leased r e.config) e (pick wall latency request e).0 k x
      (pick-Edit wall latency request e).0 there) [
        | inl same ↦ same
        | inr (y, (due, _), _) ↦ absurd (not_due x r l due)
      ]

-- What an enforced choice leaves under the key of an entry that it leases.
pub take_lease-lookup :
    (wall : Time) (request : PickRequest) (p : PickCandidate) (k : Text) (x : Entry) (e : Engine)
    → p.needs_lease ≡ true
    → p.found ≡ some (k, x)
    → lookup k (take_lease wall request p e).entries ≡ some (lease_entry request e.config x)
unfolding take_lease mark_dirty
take_lease-lookup wall request p k x e n f =
    ground (arith, lookup-insert_self k (lease_entry request e.config x) e.entries)

lease_entry-IsLeased :
    (request : PickRequest) (c : Config) (x : Entry) (now : Time)
    → now < add_time request.now c.half_open_lease
    → IsLeased (lease_entry request c x) now
unfolding lease_entry
lease_entry-IsLeased request c x now h = record { half = refl; running = h }

advance_cursor-entries :
    (g : ModelGroup) (e : Engine)
    → ((advance_cursor g e).entries ≡ e.entries) × ((advance_cursor g e).config ≡ e.config)
unfolding advance_cursor
advance_cursor-entries g e = (refl, refl)

module _ (wall : Time) (latency : ℕ) (request : PickRequest) (group : ModelGroup) (e : Engine) where
  -- The candidate that a request selects.
  abbrev pub Selects : PickCandidate → Type 0
  Selects p =
      let r = normalized_request wall request in
      select_available group (scanned wall r (counted_pick e) group (auth_policy r e))
        (counted_pick e)
      ≡ some p

  module _ (p : PickCandidate) (k : Text) (x : Entry)
      (g : IsGuarded (normalized_request wall request) group)
      (mode : is_enforce (normalized_request wall request).mode ≡ true) (chosen : Selects p)
      (probes : p.needs_lease ≡ true) (located : p.found ≡ some (k, x)) where
    -- A request that is let through to a recovering account leases its entry, in its own name.
    pub pick_leases :
        lookup k (pick wall latency request e).0.entries
        ≡ some (lease_entry (normalized_request wall request) e.config x)
    unfolding record_pick pick_group pick_selected advance_cursor
    pick_leases = rw (pick-pick_group wall latency request group e g) (
        rw (chosen, mode)
          (take_lease-lookup wall (normalized_request wall request) p k x _ probes located))

    -- After an enforced request was let through to a recovering account, any guarded request that
    -- comes before its lease ends, of any model group, mode and policy, leaves the lease under the
    -- entry's key as it is, and is either blocked or gets one of its candidates that the breaker
    -- admits by another entry, or by none.
    pub probe_exclusive :
        (wall' : Time) (latency' : ℕ) (request' : PickRequest) (group' : ModelGroup)
        → let e' = (pick wall latency request e).0 in
          let r' = normalized_request wall' request' in
          let second = pick wall' latency' request' e' in
          IsGuarded r' group'
          → r'.now < add_time (normalized_request wall request).now e.config.half_open_lease
          → (lookup k second.0.entries
              ≡ some (lease_entry (normalized_request wall request) e.config x))
            × (Blocked r' second.1
                ⊎ ((p' : PickCandidate) × Admitted wall' r'
                      (counted_pick e')
                      group'
                      (auth_policy r' e')
                      p'
                    × Selected r' p' second.1
                    × ((y : Entry) → p'.found ≢ some (k, y))))
    probe_exclusive wall' latency' request' group' g' early =
        let r = normalized_request wall request in
        let r' = normalized_request wall' request' in
        let e' = (pick wall latency request e).0 in
        let held = lease_entry-IsLeased r e.config x r'.now early in
        (
          leased_kept wall' latency' request' e' k (lease_entry r e.config x) held pick_leases,
          elim (pick-Outcome wall' latency' request' group' e' g') [
            | inl blocked ↦ inl blocked
            | inr (p', admitted, selected) ↦ inr (
              p',
              admitted,
              selected,
              λ y h.
                  not_leased wall' r' (counted_pick e') group' (auth_policy r' e') p' k
                    (lease_entry r e.config x) y held pick_leases admitted h,
            )
          ],
        )
