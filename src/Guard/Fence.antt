-- ===== src/Guard/Fence.antt =====
-- internal/guard/observe.go: records and evidence that must not touch the breaker, and the only
-- ways in which it closes.
use cpa_antigravity_quota_gu.Prelude.{
  ◌≤◌, ◌<◌, ◌≡◌, ◌≢◌, refl, sym, ap, ◌∙◌, subst, true, false, ◌||◌, ◌⊎◌, inl, inr, Option, none,
  some, some_injective, List, [], ◌∷◌, All, arith, Text, text_eq, text_eq_iff, trim_space, is_empty,
  lookup, lookup-insert, Bool-cases,
}
use cpa_antigravity_quota_gu.Guard.Types.{
  Time, ModelGroup, closed, uninitialized, half_open, quota_zero, manual_probe, no_reason,
}
use cpa_antigravity_quota_gu.Guard.Records.{Config, Entry, UsageObservation, QuotaEvidence}
use cpa_antigravity_quota_gu.Guard.Classify.{classify_model, is_antigravity_provider}
use cpa_antigravity_quota_gu.Guard.Engine.{Engine, mark_dirty}
use cpa_antigravity_quota_gu.Guard.Reset.{Parsers}
use cpa_antigravity_quota_gu.Guard.Observe.{
  lookup_entry, is_fenced, observe_locked, observe_group, observe_usage, observe_entry,
  observe_success, observe_explicit, observe_generic, count_generic, normalized_observation,
  is_lease_success,
}
use cpa_antigravity_quota_gu.Guard.Breaker.{is_outdated, commit, open_entry, close_entry}
use cpa_antigravity_quota_gu.Guard.Selection.{lookup_entry-lookup}
use cpa_antigravity_quota_gu.Guard.Evidence.{apply_evidence, float_positive}

-- The records of finished requests, observed one after another, each with the time of its call.
pub observe_records : Parsers → List (Time × UsageObservation) → Engine → Engine
observe_records p [] e = e
observe_records p ((wall, o) ∷ os) e = observe_records p os (observe_usage p wall o e).0

-- A record of another request than the one that holds the lease, or one from before the newest
-- evidence of the entry.
abbrev pub Outsider : Entry → Time × UsageObservation → Type 0
Outsider x (wall, o) =
    (trim_space o.request_id ≢ x.half_open_request_id)
    ⊎ ((normalized_observation wall o).observed_at < x.last_evidence_at)

is_empty-nil : (s : Text) → s ≢ [] → is_empty s ≡ false
is_empty-nil [] h = absurd (h refl)
is_empty-nil (c ∷ s) h = refl

text_ne : (s t : Text) → s ≢ t → text_eq s t ≡ false
text_ne s t h = ground (arith, text_eq_iff s t)

-- Such a record is refused before its entry is looked at.
Outsider-refused :
    (wall : Time) (o : UsageObservation) (x : Entry)
    → x.state ≡ half_open
    → x.half_open_request_id ≢ []
    → Outsider x (wall, o)
    → let n = normalized_observation wall o in (is_outdated x n.observed_at || is_fenced n x) ≡ true
Outsider-refused wall o x half held (inr old) = ground arith
Outsider-refused wall o x half held (inl other) = ground (
  arith,
  half,
  is_empty-nil x.half_open_request_id held,
  text_ne (trim_space o.request_id) x.half_open_request_id other,
)

observe_locked-other :
    (p : Parsers) (wall : Time) (o : UsageObservation) (g : ModelGroup) (e : Engine) (k j : Text)
    (x y : Entry)
    → lookup k e.entries ≡ some x
    → text_eq j k ≡ false
    → lookup k (observe_locked p wall o g (some (j, y)) e).0.entries ≡ some x
unfolding observe_locked commit mark_dirty
observe_locked-other p wall o g e k j x y there other =
    ground (arith, lookup-insert j k (observe_entry p e.config o y) e.entries)

observe_found-keeps :
    (p : Parsers) (wall : Time) (o : UsageObservation) (g : ModelGroup) (e : Engine) (k : Text)
    (x : Entry)
    → lookup k e.entries ≡ some x
    → (is_outdated x o.observed_at || is_fenced o x) ≡ true
    → (found : Option (Text × Entry))
    → ((j : Text) (y : Entry) → found ≡ some (j, y) → lookup j e.entries ≡ some y)
    → lookup k (observe_locked p wall o g found e).0.entries ≡ some x
observe_found-keeps p wall o g e k x there refused none f = unfold observe_locked in there
observe_found-keeps p wall o g e k x there refused (some (j, y)) f =
    elim (Bool-cases (text_eq j k)) [
      | inr other ↦ observe_locked-other p wall o g e k j x y there other
      | inl same ↦
          let one : y ≡ x =
            some_injective (
              sym (f j y refl) ∙ ap (λ i. lookup i e.entries) ((text_eq_iff j k).0 same) ∙ there) in
          let shut : (is_outdated y o.observed_at || is_fenced o y) ≡ true =
            subst (λ z. (is_outdated z o.observed_at || is_fenced o z) ≡ true) (sym one) refused in
          unfold observe_locked in rw shut there
    ]

observe_group-keeps :
    (p : Parsers) (wall : Time) (o : UsageObservation) (g : Option ModelGroup) (e : Engine)
    (k : Text) (x : Entry)
    → lookup k e.entries ≡ some x
    → let n = normalized_observation wall o in
      (is_outdated x n.observed_at || is_fenced n x) ≡ true
      → lookup k (observe_group p wall o g e).0.entries ≡ some x
unfolding observe_group
observe_group-keeps p wall o none e k x there refused = there
observe_group-keeps p wall o (some g) e k x there refused =
    let n = normalized_observation wall o in
    observe_found-keeps p wall n g e k x there refused (lookup_entry n.auth_index n.auth_id g e)
      (lookup_entry-lookup n.auth_index n.auth_id g e)

observe_usage-keeps :
    (p : Parsers) (wall : Time) (o : UsageObservation) (e : Engine) (k : Text) (x : Entry)
    → lookup k e.entries ≡ some x
    → x.state ≡ half_open
    → x.half_open_request_id ≢ []
    → Outsider x (wall, o)
    → lookup k (observe_usage p wall o e).0.entries ≡ some x
unfolding observe_usage
observe_usage-keeps p wall o e k x there half held out =
    elim (Bool-cases (is_antigravity_provider o.provider)) [
      | inr other ↦ rw other there
      | inl ours ↦ rw ours (
          observe_group-keeps p wall o (classify_model o.model) e k x there
            (Outsider-refused wall o x half held out))
    ]

-- However many usage records come, as long as each is of another request than the one that holds
-- the lease of a half-open entry, or older than the entry's evidence, they leave the entry exactly
-- as it was: none of them closes it, opens it again or counts a failure.
pub observe_records-keeps_lease :
    (p : Parsers) (os : List (Time × UsageObservation)) (e : Engine) (k : Text) (x : Entry)
    → lookup k e.entries ≡ some x
    → x.half_open_request_id ≢ []
    → x.state ≡ half_open
    → All (Outsider x) os
    → lookup k (observe_records p os e).entries ≡ some x
unfolding observe_records
observe_records-keeps_lease p [] e k x there held half out = there
observe_records-keeps_lease p ((wall, o) ∷ os) e k x there held half (out, outs) =
    observe_records-keeps_lease p os (observe_usage p wall o e).0 k x
      (observe_usage-keeps p wall o e k x there half held out) held half outs

-- The success of the request that holds the lease of a half-open entry.
pub record ClosesLease (o : UsageObservation) (x : Entry) : Type 0 where
  pub success : o.failed ≡ false
  pub half : x.state ≡ half_open
  pub held : x.half_open_request_id ≢ []
  pub holder : trim_space o.request_id ≡ x.half_open_request_id
  pub started : 0 < x.half_open_started_at
  pub in_time : x.half_open_started_at ≤ o.observed_at

is_lease_success-ClosesLease :
    (o : UsageObservation) (x : Entry)
    → o.failed ≡ false
    → is_lease_success o x ≡ true
    → ClosesLease o x
is_lease_success-ClosesLease o x f h = record {
  success = f;
  half = ground arith;
  held = λ e. ground arith;
  holder = ground (arith, text_eq_iff (trim_space o.request_id) x.half_open_request_id);
  started = ground arith;
  in_time = ground arith;
}

closing_success :
    (p : Parsers) (c : Config) (o : UsageObservation) (x : Entry)
    → x.state ≢ closed
    → (observe_entry p c o x).state ≡ closed
    → (o.failed ≡ false) × (is_lease_success o x ≡ true)
unfolding observe_entry observe_success observe_explicit observe_generic count_generic open_entry
    close_entry
closing_success p c o x h e = ground arith

-- A usage record closes a breaker only as the success of the request that holds its lease: the
-- entry is half-open, its lease has begun no later than the record was observed, and the request
-- under whose id it stands, which is not blank, is that of the record.
pub observe_entry-closes :
    (p : Parsers) (c : Config) (o : UsageObservation) (x : Entry)
    → x.state ≢ closed
    → (observe_entry p c o x).state ≡ closed
    → ClosesLease o x
observe_entry-closes p c o x h e =
    let (success, lease) = closing_success p c o x h e in
    is_lease_success-ClosesLease o x success lease

-- Quota evidence of a positive rest closes an account that is new, or whose breaker was opened by
-- quota evidence or waits for a manual probe; a breaker opened by 429 responses keeps its state.
pub apply_evidence_positive :
    (q : QuotaEvidence) (x : Entry)
    → float_positive q.remaining ≡ true
    → let y = apply_evidence q x in
      (((x.state ≡ uninitialized) ⊎ (x.reason ≡ quota_zero) ⊎ (x.reason ≡ manual_probe))
        × (y.state ≡ closed)
        × (y.reason ≡ no_reason))
      ⊎ ((x.state ≢ uninitialized)
          × (x.reason ≢ quota_zero)
          × (x.reason ≢ manual_probe)
          × (y.state ≡ x.state)
          × (y.reason ≡ x.reason)
          × (y.recover_at ≡ x.recover_at))
unfolding apply_evidence open_entry close_entry
apply_evidence_positive q x h = ground arith
