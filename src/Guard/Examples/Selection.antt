-- ===== src/Guard/Examples/Selection.antt =====
-- Picks on two accounts, one of which recovers at noon.
use cpa_antigravity_quota_gu.Prelude.{
  lookup, ◌⊎◌, ℕ, ◌+◌, ◌*◌, ◌≡◌, refl, ◌≢◌, false, true, some, pos, codes, arith, ◌<ℤ◌,
}
use cpa_antigravity_quota_gu.Guard.Types.{second, gemini, observe, fail_closed}
use cpa_antigravity_quota_gu.Guard.Records.{default_config, no_code, Entry, PickRequest}
use cpa_antigravity_quota_gu.Guard.Engine.{Engine}
use cpa_antigravity_quota_gu.Guard.Classify.{
  classify_model, route_includes_antigravity, group_enforced,
}
use cpa_antigravity_quota_gu.Guard.Candidates.{PickCandidate, candidate_is_antigravity, scan}
use cpa_antigravity_quota_gu.Guard.Pick.{pick, lease_entry, retry_after, select_available}
use cpa_antigravity_quota_gu.Guard.Observe.{lookup_entry}
use cpa_antigravity_quota_gu.Guard.Status.{evidence_fresh}
use cpa_antigravity_quota_gu.Guard.Selection.{Admitted}
use cpa_antigravity_quota_gu.Guard.Selection.Outcome.{
  IsGuarded, pick-Outcome, Outcome, counted_pick, Blocked, Selected, auth_policy,
}
use cpa_antigravity_quota_gu.Guard.Selection.Pure.{pick-SameBreaker, SameBreaker}
use cpa_antigravity_quota_gu.Guard.Selection.Lease.{probe_exclusive}
use cpa_antigravity_quota_gu.Guard.Selection.Retry.{
  retry_after-Covers, retry_after_overflows, Covers,
}
use cpa_antigravity_quota_gu.Guard.Selection.Serving.{pick-Serves, Serves}
use cpa_antigravity_quota_gu.Guard.Examples.{
  noon, two_accounts, first_account, second_account, first_key, second_key, recovering, healthy,
  request_at, candidate_of,
}

request-IsGuarded : IsGuarded (request_at noon (codes "r1")) gemini
unfolding route_includes_antigravity classify_model group_enforced
request-IsGuarded = record { routed = refl; grouped = refl; enforced = refl }

-- The recovering account is probed first: the cursor is at zero.
pick_probes :
    (pick noon 3 (request_at noon (codes "r1")) two_accounts).1.selected_auth_id ≡ codes "one"
unfolding pick default_config
pick_probes = refl

pick-Outcome_example :
    Outcome noon
      (request_at noon (codes "r1"))
      (counted_pick two_accounts)
      gemini
      fail_closed
      (pick noon 3 (request_at noon (codes "r1")) two_accounts).1
unfolding default_config
pick-Outcome_example =
    pick-Outcome noon 3 (request_at noon (codes "r1")) gemini two_accounts request-IsGuarded

pick-SameBreaker_example :
    SameBreaker two_accounts
      (pick noon 3 (record (request_at noon (codes "r1")) { mode = observe }) two_accounts).0
pick-SameBreaker_example =
    pick-SameBreaker noon 3 (record (request_at noon (codes "r1")) { mode = observe }) two_accounts
      refl

abbrev probing : PickCandidate
probing = record {
  candidate = candidate_of first_account;
  found = some (first_key, recovering);
  needs_lease = true;
}

-- Ten seconds later another request comes.
abbrev after_first : Engine
after_first = (pick noon 3 (request_at noon (codes "r1")) two_accounts).0

abbrev second_request : PickRequest
second_request = request_at (noon + 10 * second) (codes "r2")

second-IsGuarded : IsGuarded second_request gemini
unfolding route_includes_antigravity classify_model group_enforced
second-IsGuarded = record { routed = refl; grouped = refl; enforced = refl }

probe_exclusive_example :
    let result = pick noon 3 second_request after_first in
    (lookup first_key result.0.entries
      ≡ some (lease_entry (request_at noon (codes "r1")) two_accounts.config recovering))
    × (Blocked second_request result.1
        ⊎ ((p : PickCandidate) × Admitted noon second_request
              (counted_pick after_first)
              gemini
              (auth_policy second_request after_first)
              p
            × Selected second_request p result.1
            × ((y : Entry) → p.found ≢ some (first_key, y))))
unfolding default_config select_available scan
probe_exclusive_example =
    probe_exclusive noon 3 (request_at noon (codes "r1")) gemini two_accounts probing first_key
      recovering request-IsGuarded refl refl refl refl noon 3 second_request gemini second-IsGuarded
      (omega arith)

retry_after-Covers_example :
    (n : ℕ) × (retry_after noon (noon + 1) ≡ pos n) × Covers noon (noon + 1) n
retry_after-Covers_example = retry_after-Covers noon (noon + 1) (omega arith) (omega arith)

-- A reset in the year 2400 after a request in 1997.
retry_after_overflows_example : retry_after noon (noon + 12717388800 * second) <ℤ pos 0
retry_after_overflows_example =
    retry_after_overflows noon (noon + 12717388800 * second) (omega arith)

second-Serves :
    Serves noon
      (request_at noon (codes "r1"))
      (counted_pick two_accounts)
      gemini
      fail_closed
      (candidate_of second_account)
unfolding default_config candidate_is_antigravity lookup_entry evidence_fresh
second-Serves = record {
  ours = refl;
  key = second_key;
  entry = healthy;
  lease = false;
  located = refl;
  usable = (refl, refl);
}

pick-Serves_example :
    (pick noon 3 (request_at noon (codes "r1")) two_accounts).1.error_code ≡ no_code
unfolding default_config
pick-Serves_example =
    pick-Serves noon 3 (request_at noon (codes "r1")) gemini two_accounts 1
      (candidate_of second_account) request-IsGuarded refl second-Serves
