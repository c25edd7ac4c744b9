-- ===== src/Runtime/Agreement.antt =====
-- internal/runtime/official_handlers.go and internal/guard/pick.go: the check of a request on its way
-- lets through what the scheduler has just selected.
use cpa_antigravity_quota_gu.Prelude.{
  ◌<◌, ◌≡◌, refl, sym, ◌∙◌, ap, subst, true, false, ◌&&◌, not, ◌⊎◌, inl, inr, Option, none, some,
  List, [], ◌∷◌, arith, Bool-cases, Text, Dict, lookup, text_eq, text_eq_iff, Any, some_injective,
}
use cpa_antigravity_quota_gu.Guard.Types.{
  Time, Duration, ModelGroup, gemini, claude_gpt, other_group, group_eq, State, uninitialized,
  closed, opened, half_open, other_state,
}
use cpa_antigravity_quota_gu.Guard.Records.{Entry, Snapshot}
use cpa_antigravity_quota_gu.Guard.Entries.{insert_sorted, sorted_entries, entry_less}
use cpa_antigravity_quota_gu.Guard.Status.{evidence_fresh}
use cpa_antigravity_quota_gu.Guard.Candidates.{needs_fresh}
use cpa_antigravity_quota_gu.Runtime.Groups.{
  GroupScan, empty_group_scan, scan_group_state, scan_group_entry, scan_group, go_on, judge_group,
  evaluate_guard_group,
}

module _ (P : Entry → Type 0) where
  Any-insert_sorted : (x : Entry) (xs : List Entry) → P x ⊎ Any P xs → Any P (insert_sorted x xs)
  unfolding insert_sorted
  Any-insert_sorted x [] h = h
  Any-insert_sorted x (y ∷ ys) h = elim (Bool-cases (entry_less y x)) [
    | inr e ↦ rw e h
    | inl e ↦ rw e (elim h [
      | inl p ↦ inr (Any-insert_sorted x ys (inl p))
      | inr (inl q) ↦ inl q
      | inr (inr t) ↦ inr (Any-insert_sorted x ys (inr t))
    ])
  ]

  -- An entry of the map is in the sorted list.
  pub Any-sorted_entries :
      (k : Text) (x : Entry) (m : Dict Entry) → lookup k m ≡ some x → P x → Any P (sorted_entries m)
  unfolding sorted_entries lookup
  Any-sorted_entries k x [] h p = cc
  Any-sorted_entries k x ((j, y) ∷ m) h p = elim (Bool-cases (text_eq j k)) [
    | inl e ↦
        Any-insert_sorted y (sorted_entries m)
          (inl (subst P (sym (some_injective {a = y} {b = x} (rw e at h))) p))
    | inr e ↦ Any-insert_sorted y (sorted_entries m) (inr (Any-sorted_entries k x m (rw e at h) p))
  ]

pub group_eq_self : (g : ModelGroup) → group_eq g g ≡ true
unfolding group_eq
group_eq_self gemini = refl
group_eq_self claude_gpt = refl
group_eq_self (other_group s) = (text_eq_iff s s).1 refl

module _ (wall at : Time) (group : ModelGroup) (max_age : Duration) where
  -- What an entry that serves a request looks like from then on: closed with fresh evidence, or
  -- half-open with a lease that runs.
  abbrev pub InService : State → Entry → Type 0
  InService closed x = evidence_fresh wall x at max_age ≡ true
  InService half_open x = at < x.half_open_lease_until
  InService _ x = ⊥

  abbrev pub ServesGroup : Entry → Type 0
  ServesGroup x = (x.model_group ≡ group) × InService x.state x

  -- The loop has returned, or has seen a lease that runs.
  abbrev pub LetsThrough : Option GroupScan → Type 0
  LetsThrough none = Unit {0}
  LetsThrough (some s) = s.half_open_ready ≡ true

  scan_group_state-ready :
      (t : State) (x : Entry) (s : GroupScan)
      → s.half_open_ready ≡ true
      → LetsThrough (scan_group_state at t x s)
  unfolding scan_group_state
  scan_group_state-ready closed x s h = tt
  scan_group_state-ready uninitialized x s h = h
  scan_group_state-ready opened x s h = h
  scan_group_state-ready half_open x s h = rw h refl
  scan_group_state-ready (other_state _) x s h = h

  scan_group_entry-ready :
      (x : Entry) (s : GroupScan)
      → s.half_open_ready ≡ true
      → LetsThrough (scan_group_entry wall at group max_age x s)
  unfolding scan_group_entry
  scan_group_entry-ready x s h = elim (Bool-cases (group_eq x.model_group group)) [
    | inr e ↦ rw e h
    | inl e ↦
        rw e (elim (Bool-cases (needs_fresh x.state && not (evidence_fresh wall x at max_age))) [
          | inl f ↦ rw f h
          | inr f ↦ rw f (scan_group_state-ready x.state x s h)
        ])
  ]

  go_on-LetsThrough :
      (o : Option GroupScan) (f : GroupScan → Option GroupScan)
      → LetsThrough o
      → ((s : GroupScan) → s.half_open_ready ≡ true → LetsThrough (f s))
      → LetsThrough (go_on o f)
  go_on-LetsThrough none f h k = tt
  go_on-LetsThrough (some s) f h k = k s h

  scan_group-ready :
      (xs : List Entry) (s : GroupScan)
      → s.half_open_ready ≡ true
      → LetsThrough (scan_group wall at group max_age xs s)
  unfolding scan_group
  scan_group-ready [] s h = h
  scan_group-ready (x ∷ xs) s h =
      go_on-LetsThrough (scan_group_entry wall at group max_age x s)
        (scan_group wall at group max_age xs) (scan_group_entry-ready x s h) (scan_group-ready xs)

  scan_group_state-InService :
      (t : State) (x : Entry) (s : GroupScan)
      → InService t x
      → (needs_fresh t && not (evidence_fresh wall x at max_age) ≡ false)
        × LetsThrough (scan_group_state at t x s)
  unfolding scan_group_state
  scan_group_state-InService closed x s h = (rw h refl, tt)
  scan_group_state-InService half_open x s h = (refl, ground arith)
  scan_group_state-InService uninitialized x s h = absurd h
  scan_group_state-InService opened x s h = absurd h
  scan_group_state-InService (other_state _) x s h = absurd h

  scan_group_entry-ServesGroup :
      (x : Entry) (s : GroupScan)
      → ServesGroup x
      → LetsThrough (scan_group_entry wall at group max_age x s)
  unfolding scan_group_entry
  scan_group_entry-ServesGroup x s (g, h) =
      let (fresh, through) = scan_group_state-InService x.state x s h in
      rw (ap (λ u. group_eq u group) g ∙ group_eq_self group, fresh) through

  go_on-always :
      (o : Option GroupScan) (f : GroupScan → Option GroupScan)
      → ((s : GroupScan) → LetsThrough (f s))
      → LetsThrough (go_on o f)
  go_on-always none f k = tt
  go_on-always (some s) f k = k s

  scan_group-ServesGroup :
      (xs : List Entry) (s : GroupScan)
      → Any ServesGroup xs
      → LetsThrough (scan_group wall at group max_age xs s)
  unfolding scan_group
  scan_group-ServesGroup [] s h = absurd h
  scan_group-ServesGroup (x ∷ xs) s (inl h) =
      go_on-LetsThrough (scan_group_entry wall at group max_age x s)
        (scan_group wall at group max_age xs) (scan_group_entry-ServesGroup x s h)
        (scan_group-ready xs)
  scan_group-ServesGroup (x ∷ xs) s (inr h) =
      go_on-always (scan_group_entry wall at group max_age x s)
        (scan_group wall at group max_age xs) (λ t. scan_group-ServesGroup xs t h)

  judge_group-LetsThrough :
      (snap : Snapshot) (policy : Text) (o : Option GroupScan)
      → LetsThrough o
      → (judge_group snap group policy o).blocked ≡ false
  unfolding judge_group
  judge_group-LetsThrough snap policy none h = refl
  judge_group-LetsThrough snap policy (some s) h = rw h refl

-- A group with an entry in service is not blocked.
pub evaluate_guard_group-ServesGroup :
    (wall : Time) (snap : Snapshot) (group : ModelGroup) (policy : Text) (max_age : Duration)
    → Any (ServesGroup wall snap.generated_at group max_age) snap.entries
    → (evaluate_guard_group wall snap group policy max_age).blocked ≡ false
unfolding evaluate_guard_group
evaluate_guard_group-ServesGroup wall snap group policy max_age h =
    judge_group-LetsThrough wall snap.generated_at group max_age snap policy
      (scan_group wall snap.generated_at group max_age snap.entries empty_group_scan)
      (scan_group-ServesGroup wall snap.generated_at group max_age snap.entries empty_group_scan h)
