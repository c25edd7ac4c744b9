-- ===== src/Runtime/Examples.antt =====
-- internal/runtime on two accounts, one of which recovers at noon.
use cpa_antigravity_quota_gu.Prelude.{
  ◌≡◌, refl, false, true, some, [], ◌∷◌, Text, codes, arith, pos, lookup,
}
use cpa_antigravity_quota_gu.Guard.Types.{gemini, float_one}
use cpa_antigravity_quota_gu.Guard.Records.{default_config}
use cpa_antigravity_quota_gu.Guard.Classify.{
  classify_model, route_includes_antigravity, group_enforced,
}
use cpa_antigravity_quota_gu.Guard.Engine.{entry_key}
use cpa_antigravity_quota_gu.Guard.Candidates.{PickCandidate, scan}
use cpa_antigravity_quota_gu.Guard.Pick.{pick, select_available}
use cpa_antigravity_quota_gu.Guard.Status.{snapshot}
use cpa_antigravity_quota_gu.Guard.Invariant.{IsValid, IsValidConfig, IsValidEngine}
use cpa_antigravity_quota_gu.Guard.Selection.Outcome.{IsGuarded}
use cpa_antigravity_quota_gu.Guard.Examples.{
  noon, two_accounts, first_account, first_key, recovering, healthy, request_at, candidate_of,
}
use cpa_antigravity_quota_gu.Configuration.Records.{default_plugin_config, guard_mode_enforce}
use cpa_antigravity_quota_gu.Runtime.Records.{
  Adapter, SchedulerPickRequest, SchedulerAuthCandidate, selects,
}
use cpa_antigravity_quota_gu.Runtime.Groups.{evaluate_guard_group}
use cpa_antigravity_quota_gu.Runtime.Handlers.{handle_scheduler_pick}
use cpa_antigravity_quota_gu.Runtime.Selected.{pick-evaluate_guard_group}

abbrev armed : Adapter
armed = record {
  config = record default_plugin_config {
    required_scheduler_for = codes "antigravity" ∷ [];
    guard = record (default_plugin_config.guard) { mode = guard_mode_enforce };
  };
  host_features = codes "required_scheduler_v1" ∷ [];
  guard = record {
    generation = 1;
    engine = some two_accounts;
    path = [];
    persist_signal = false;
    last_persist_err = [];
    last_probe_err = [];
    inventory_ready = true;
    baseline_ready = true;
  };
}

abbrev account : Text → SchedulerAuthCandidate
account id = record { id = id; provider = codes "antigravity"; priority = pos 0 }

abbrev asked : SchedulerPickRequest
asked = record {
  request_id = codes "r1";
  provider = codes "antigravity";
  providers = [];
  model = codes "gemini-pro";
  candidates = account (codes "one") ∷ account (codes "two") ∷ [];
}

-- The account that recovers is named.
names_first : (handle_scheduler_pick noon 3 noon (some asked) armed).0 ≡ selects (codes "one")
unfolding handle_scheduler_pick default_plugin_config default_config
names_first = refl

abbrev probing : PickCandidate
probing = record {
  candidate = candidate_of first_account;
  found = some (first_key, recovering);
  needs_lease = true;
}

request-IsGuarded : IsGuarded (request_at noon (codes "r1")) gemini
unfolding route_includes_antigravity classify_model group_enforced
request-IsGuarded = record { routed = refl; grouped = refl; enforced = refl }

default-IsValidConfig : IsValidConfig default_config
unfolding default_config
default-IsValidConfig = omega arith

recovering-IsValid : IsValid recovering
unfolding float_one
recovering-IsValid = record {
  phase = record {
    free = record { not_started = refl; not_leased = refl; no_holder = refl };
    cause = refl;
    recovers = omega arith;
  };
  grouped = refl;
  ordered = omega arith;
  percent = (refl, refl, refl);
}

healthy-IsValid : IsValid healthy
unfolding float_one
healthy-IsValid = record {
  phase = record {
    free = record { not_started = refl; not_leased = refl; no_holder = refl };
    no_cause = refl;
    never_opened = refl;
    no_recovery = refl;
    no_reset = refl;
  };
  grouped = refl;
  ordered = omega arith;
  percent = (refl, refl, refl);
}

two_accounts-IsValidEngine : IsValidEngine two_accounts
unfolding entry_key lookup
two_accounts-IsValidEngine = record {
  configured = default-IsValidConfig;
  filed = ((recovering-IsValid, refl), ((healthy-IsValid, refl), tt));
  distinct = (refl, (refl, tt));
}

pick-evaluate_guard_group_example :
    (evaluate_guard_group noon
      (snapshot noon noon (pick noon 3 (request_at noon (codes "r1")) two_accounts).0)
      gemini
      (codes "fail_closed")
      two_accounts.config.evidence_max_age).blocked
    ≡ false
unfolding default_config select_available scan
pick-evaluate_guard_group_example =
    pick-evaluate_guard_group noon 3 (request_at noon (codes "r1")) gemini two_accounts probing
      first_key recovering (codes "fail_closed") two_accounts-IsValidEngine request-IsGuarded refl
      refl refl refl
