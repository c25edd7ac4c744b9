-- ===== src/Guard/Examples/Breaker.antt =====
-- Failures, successes and evidence on small engines.
use cpa_antigravity_quota_gu.Prelude.{
  text_eq_iff, Bool, true, List, inl, ◌+◌, ◌*◌, ◌≤◌, ◌≡◌, refl, ◌≢◌, ◌⊎◌, false, none, some, [],
  ◌∷◌, Text, codes, arith, text_eq, trim_space, lookup,
}
use cpa_antigravity_quota_gu.Guard.Types.{
  Time, second, minute, gemini, closed, half_open, uninitialized, no_reason, quota_zero,
  manual_probe, sub_time, returns,
}
use cpa_antigravity_quota_gu.Guard.Records.{Entry, UsageObservation, default_config}
use cpa_antigravity_quota_gu.Guard.Engine.{Engine, new_engine, initial_engine}
use cpa_antigravity_quota_gu.Guard.Entries.{sorted_entries}
use cpa_antigravity_quota_gu.Guard.Observe.{observe_usage, observe_entry, generic_recover_at}
use cpa_antigravity_quota_gu.Guard.Evidence.{apply_evidence}
use cpa_antigravity_quota_gu.Guard.Invariant.{IsValidEngine, IsValidConfig}
use cpa_antigravity_quota_gu.Guard.Steps.{observes, made, next, Reached-IsValidEngine}
use cpa_antigravity_quota_gu.Guard.Keys.{entry_key-injective}
use cpa_antigravity_quota_gu.Guard.Cooldown.{HoldsUntil, observe_usage-HoldsUntil}
use cpa_antigravity_quota_gu.Guard.Cooldown.Generic.{
  generic_recover_at_bounds, below_threshold_closed, threshold_opens, Failing, OpenedAt, Failure,
  observe_all,
}
use cpa_antigravity_quota_gu.Guard.Fence.{
  observe_records, observe_records-keeps_lease, ClosesLease, observe_entry-closes,
  apply_evidence_positive,
}
use cpa_antigravity_quota_gu.Guard.Store.{save_begin, save_finish}
use cpa_antigravity_quota_gu.Guard.Store.Saving.{here, then, save_keeps_changes}
use cpa_antigravity_quota_gu.Guard.Examples.{
  no_parsers, digest, noon, two_accounts, first_key, recovering, healthy, failure_at, evidence_at,
}

-- A process that learns of an account, of its quota and of a failure.
abbrev started : Engine
started = initial_engine default_config

Reached-IsValidEngine_example :
    IsValidEngine (observe_usage no_parsers noon (failure_at noon) started).0
unfolding new_engine default_config
Reached-IsValidEngine_example =
    Reached-IsValidEngine no_parsers digest {c = default_config}
      (next (made refl) (observes noon (failure_at noon)))

entry_key-injective_example : ◌≡◌ {A = Text} (codes "1") (codes "1")
entry_key-injective_example =
    (entry_key-injective (codes "1") (codes "1") gemini gemini refl refl refl).0

-- A breaker of exhausted quota, until an hour after noon.
abbrev exhausted : Entry
exhausted = record recovering { reason = quota_zero; recover_at = noon + 60 * minute }

abbrev exhausted_engine : Engine
exhausted_engine = record two_accounts { entries = (first_key, exhausted) ∷ [] }

observe_usage-HoldsUntil_example :
    (y : Entry) × (lookup first_key
        (observe_usage no_parsers noon (failure_at noon) exhausted_engine).0.entries
      ≡ some y)
    × HoldsUntil y noon (noon + 60 * minute)
unfolding lookup
observe_usage-HoldsUntil_example =
    observe_usage-HoldsUntil no_parsers noon (failure_at noon) exhausted_engine first_key exhausted
      refl refl

default_valid : IsValidConfig default_config
unfolding default_config
default_valid = omega arith

generic_recover_at_bounds_example :
    let t = generic_recover_at default_config noon none recovering in
    (noon + 15 * minute ≤ t) × ((t ≤ noon + 30 * minute) ⊎ (none ≡ some t))
unfolding default_config
generic_recover_at_bounds_example =
    generic_recover_at_bounds default_config noon none recovering default_valid

-- A failure with no announced reset, and half a minute later one that announces an hour.
abbrev first_failure : Failure
first_failure = record { at = noon; reset = none }

abbrev long_failure : Failure
long_failure = record { at = noon + 30 * second; reset = some (noon + 60 * minute) }

below_threshold_closed_example :
    Failing 1 noon (observe_all default_config (first_failure ∷ []) healthy)
unfolding default_config
below_threshold_closed_example =
    below_threshold_closed default_config 2 refl (omega arith) first_failure [] healthy refl refl
      (omega arith) tt (omega arith)

threshold_opens_example :
    OpenedAt default_config
      (noon + 30 * second)
      (some (noon + 60 * minute))
      (observe_all default_config (first_failure ∷ long_failure ∷ []) healthy)
unfolding default_config sub_time
threshold_opens_example =
    threshold_opens default_config 2 refl (omega arith) first_failure (long_failure ∷ []) healthy
      refl refl (omega arith) (omega arith) refl

-- A lease of request r9.
abbrev leased : Entry
leased = record recovering {
  state = half_open;
  half_open_started_at = noon;
  half_open_lease_until = noon + 30 * second;
  half_open_request_id = codes "r9";
}

abbrev leased_engine : Engine
leased_engine = record two_accounts { entries = (first_key, leased) ∷ [] }

-- Two records of other requests, the second of no account at all.
abbrev others : List (Time × UsageObservation)
others =
    (noon, failure_at noon)
    ∷ (noon + second, record (failure_at (noon + second)) { auth_id = []; auth_index = [] })
    ∷ []

other_request : codes "r1" ≢ codes "r9"
unfolding text_eq
other_request h =
    let same : ◌≡◌ {A = Bool} false true = (text_eq_iff (codes "r1") (codes "r9")).1 h in
    absurd (cc same)

observe_records-keeps_lease_example :
    lookup first_key (observe_records no_parsers others leased_engine).entries ≡ some leased
unfolding lookup trim_space
observe_records-keeps_lease_example =
    observe_records-keeps_lease no_parsers others leased_engine first_key leased refl (λ h. cc) refl
      (inl other_request, (inl other_request, tt))

observe_entry-closes_example :
    let o = record (failure_at noon) { failed = false; request_id = codes "r9" } in
    ClosesLease o leased
unfolding observe_entry
observe_entry-closes_example =
    observe_entry-closes no_parsers default_config
      (record (failure_at noon) { failed = false; request_id = codes "r9" }) leased (λ e. cc) refl

apply_evidence_positive_example :
    let y = apply_evidence (evidence_at noon) exhausted in
    (((exhausted.state ≡ uninitialized)
        ⊎ (exhausted.reason ≡ quota_zero)
        ⊎ (exhausted.reason ≡ manual_probe))
      × (y.state ≡ closed)
      × (y.reason ≡ no_reason))
    ⊎ ((exhausted.state ≢ uninitialized)
        × (exhausted.reason ≢ quota_zero)
        × (exhausted.reason ≢ manual_probe)
        × (y.state ≡ exhausted.state)
        × (y.reason ≡ exhausted.reason)
        × (y.recover_at ≡ exhausted.recover_at))
apply_evidence_positive_example = apply_evidence_positive (evidence_at noon) exhausted refl

save_keeps_changes_example :
    let (document, generation) = save_begin noon two_accounts in
    let later = (observe_usage no_parsers noon (failure_at noon) two_accounts).0 in
    let saved = save_finish generation (returns tt) later in
    (saved.dirty ≡ later.dirty) ⊎ (document.entries ≡ sorted_entries saved.entries)
save_keeps_changes_example =
    save_keeps_changes no_parsers digest noon two_accounts
      (observe_usage no_parsers noon (failure_at noon) two_accounts).0 1 (omega arith) (omega arith)
      (then here (observes noon (failure_at noon)))
