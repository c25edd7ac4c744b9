-- ===== src/Guard/Invariant/Entries.antt =====
-- Each way in which internal/guard writes an entry keeps it valid.
use cpa_antigravity_quota_gu.Prelude.{◌≤◌, ◌<◌, ◌≡◌, refl, true, false, Option, none, some, arith}
use cpa_antigravity_quota_gu.Guard.Types.{Time, Reason, ModelGroup, group_valid}
use cpa_antigravity_quota_gu.Guard.Records.{
  Identity, QuotaEvidence, Config, Entry, UsageObservation, PickRequest,
}
use cpa_antigravity_quota_gu.Guard.Reset.{Parsers, extract_reset_at}
use cpa_antigravity_quota_gu.Guard.Entries.{new_entry}
use cpa_antigravity_quota_gu.Guard.Roster.{roster_entry}
use cpa_antigravity_quota_gu.Guard.Breaker.{open_entry, close_entry}
use cpa_antigravity_quota_gu.Guard.Evidence.{apply_evidence, evidence_invalid}
use cpa_antigravity_quota_gu.Guard.Observe.{
  count_generic, generic_recover_at, observe_generic, explicit_recover_at, explicit_reason,
  observe_explicit, observe_success, observe_entry,
}
use cpa_antigravity_quota_gu.Guard.Pick.{lease_entry, manual_entry}
use cpa_antigravity_quota_gu.Guard.Invariant.{IsValid, IsValidConfig, opens}

pub new_entry-IsValid :
    (i : Identity) (g : ModelGroup) → group_valid g ≡ true → IsValid (new_entry i g)
unfolding new_entry
new_entry-IsValid i g h = ground arith

pub open_entry-IsValid :
    (r : Reason) (at until reset : Time) (x : Entry)
    → opens r ≡ true
    → at < until
    → IsValid x
    → IsValid (open_entry r at until reset x)
unfolding open_entry
open_entry-IsValid r at until reset x h k v = ground arith

pub close_entry-IsValid : (x : Entry) → IsValid x → IsValid (close_entry x)
unfolding close_entry
close_entry-IsValid x v = ground arith

generic_recover_at-lt :
    (c : Config) (at : Time) (reset : Option Time) (x : Entry)
    → IsValidConfig c
    → at < generic_recover_at c at reset x
unfolding generic_recover_at
generic_recover_at-lt c at reset x v = ground arith

explicit_recover_at-lt :
    (c : Config) (at : Time) (reset : Option Time) (x : Entry)
    → IsValidConfig c
    → at < explicit_recover_at c at reset x
unfolding explicit_recover_at
explicit_recover_at-lt c at reset x v = ground arith

explicit_reason-opens : (at : Time) (x : Entry) → opens (explicit_reason at x) ≡ true
unfolding explicit_reason
explicit_reason-opens at x = ground arith

pub observe_generic-IsValid :
    (c : Config) (at : Time) (reset : Option Time) (x : Entry)
    → IsValidConfig c
    → x.last_evidence_at ≤ at
    → IsValid x
    → IsValid (observe_generic c at reset x)
unfolding observe_generic count_generic open_entry
observe_generic-IsValid c at reset x vc h v =
    ground (arith, generic_recover_at-lt c at reset (count_generic c at x) vc)

pub observe_explicit-IsValid :
    (c : Config) (at : Time) (reset : Option Time) (x : Entry)
    → IsValidConfig c
    → x.last_evidence_at ≤ at
    → IsValid x
    → IsValid (observe_explicit c at reset x)
unfolding observe_explicit open_entry
observe_explicit-IsValid c at reset x vc h v =
    ground (arith, explicit_recover_at-lt c at reset x vc, explicit_reason-opens at x)

pub observe_success-IsValid :
    (o : UsageObservation) (x : Entry)
    → x.last_evidence_at ≤ o.observed_at
    → IsValid x
    → IsValid (observe_success o x)
unfolding observe_success close_entry
observe_success-IsValid o x h v = ground arith

pub observe_entry-IsValid :
    (p : Parsers) (c : Config) (o : UsageObservation) (x : Entry)
    → IsValidConfig c
    → x.last_evidence_at ≤ o.observed_at
    → IsValid x
    → IsValid (observe_entry p c o x)
unfolding observe_entry
observe_entry-IsValid p c o x vc h v = ground (
  arith,
  observe_success-IsValid o x h v,
  observe_explicit-IsValid c o.observed_at (extract_reset_at p o.headers o.body o.observed_at) x vc
      h v,
  observe_generic-IsValid c o.observed_at (extract_reset_at p o.headers o.body o.observed_at) x vc h
      v,
)

pub apply_evidence-IsValid :
    (q : QuotaEvidence) (x : Entry)
    → evidence_invalid q ≡ false
    → x.last_evidence_at ≤ q.observed_at
    → IsValid x
    → IsValid (apply_evidence q x)
unfolding apply_evidence open_entry close_entry
apply_evidence-IsValid q x returns h v = ground arith

pub lease_entry-IsValid :
    (r : PickRequest) (c : Config) (x : Entry)
    → IsValidConfig c
    → IsValid x
    → IsValid (lease_entry r c x)
unfolding lease_entry
lease_entry-IsValid r c x vc v = ground arith

pub manual_entry-IsValid : (x : Entry) → IsValid x → IsValid (manual_entry x)
unfolding manual_entry
manual_entry-IsValid x v = ground arith

pub roster_entry-IsValid :
    (old : Option Entry) (i : Identity) (g : ModelGroup)
    → group_valid g ≡ true
    → ((x : Entry) → old ≡ some x → IsValid x)
    → IsValid (roster_entry old i g)
unfolding roster_entry
roster_entry-IsValid none i g h v = new_entry-IsValid i g h
roster_entry-IsValid (some x) i g h v = ground (arith, new_entry-IsValid i g h, v x refl)
