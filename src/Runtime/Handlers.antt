-- ===== src/Runtime/Handlers.antt =====
-- internal/runtime/official_handlers.go: what the host is answered when it asks for an account,
-- reports a finished request, or has a request on its way. A message that is not decoded is `none`.
use cpa_antigravity_quota_gu.Prelude.{
  ℕ, Bool, true, false, ◌&&◌, ◌||◌, not, Option, none, some, List, [], ◌∷◌, ltb, if◌then◌else◌, pos,
  Text, codes, text_eq, is_empty, trim_space,
}
use cpa_antigravity_quota_gu.Guard.Types.{Time, is_zero, add_time, ModelGroup}
use cpa_antigravity_quota_gu.Guard.Records.{
  Entry, Candidate, PickRequest, PickResult, UsageObservation, ObservationResult, ErrorCode,
  model_cooldown, guard_not_ready, quota_group_unknown,
}
use cpa_antigravity_quota_gu.Guard.Classify.{
  classify_model, is_antigravity_provider, any_antigravity,
}
use cpa_antigravity_quota_gu.Guard.Engine.{Engine}
use cpa_antigravity_quota_gu.Guard.Reset.{Parsers}
use cpa_antigravity_quota_gu.Guard.Observe.{observe_usage}
use cpa_antigravity_quota_gu.Guard.Status.{is_dirty, snapshot}
use cpa_antigravity_quota_gu.Guard.Roster.{seen}
use cpa_antigravity_quota_gu.Guard.Pick.{pick}
use cpa_antigravity_quota_gu.Configuration.Records.{
  PluginConfig, guard_mode_enforce, guard_policy_fail_closed,
}
use cpa_antigravity_quota_gu.Runtime.Records.{
  mode_of, policy_of, GuardRuntime, Adapter, SchedulerAuthCandidate, SchedulerPickRequest,
  UsageRecord, RequestIntercept, GroupBlockStatus, SchedulerReply, undecodable, unhandled,
  delegates, selects, refuses, answers_directly, InterceptReply, unreadable, passes, terminates,
}
use cpa_antigravity_quota_gu.Runtime.Identities.{contains_provider, configured_guard_groups}
use cpa_antigravity_quota_gu.Runtime.Groups.{
  evaluate_guard_group, guard_termination_response, guard_group_enabled,
}
use cpa_antigravity_quota_gu.Runtime.Quota.{with_engine}

-- The three tests of a route in `shouldDelegateConfiguredScheduler`.
unfoldable pub any_candidate : List SchedulerAuthCandidate → Bool
unfolding is_antigravity_provider
any_candidate [] = false
any_candidate (c ∷ cs) = is_antigravity_provider c.provider || any_candidate cs

abbrev pub is_routed : SchedulerPickRequest → Bool
is_routed request =
    is_antigravity_provider request.provider
    || any_antigravity request.providers
    || any_candidate request.candidates

-- `shouldDelegateConfiguredScheduler`
unfoldable pub should_delegate_configured_scheduler :
    PluginConfig → List Text → SchedulerPickRequest → Bool
unfolding contains_provider any_candidate any_antigravity is_antigravity_provider seen
should_delegate_configured_scheduler cfg features request =
    contains_provider cfg.required_scheduler_for (codes "antigravity")
    && seen (codes "required_scheduler_v1") features
    && is_routed request

abbrev pub requires_ready_group : PluginConfig → Option ModelGroup → Bool
requires_ready_group cfg none = text_eq cfg.guard.unknown_model_policy guard_policy_fail_closed
requires_ready_group cfg (some group) = guard_group_enabled group cfg.guard.enforced_groups

-- `schedulerRequestRequiresReadyGuard`
unfoldable pub scheduler_request_requires_ready_guard :
    PluginConfig → SchedulerPickRequest → Bool → Bool
unfolding classify_model guard_group_enabled text_eq
scheduler_request_requires_ready_guard cfg request routed =
    text_eq cfg.guard.mode guard_mode_enforce
    && routed
    && requires_ready_group cfg (classify_model request.model)

-- `firstNonAntigravityCandidate`
unfoldable pub first_non_antigravity_candidate :
    List SchedulerAuthCandidate → Option SchedulerAuthCandidate
unfolding is_antigravity_provider trim_space
first_non_antigravity_candidate [] = none
first_non_antigravity_candidate (c ∷ cs) =
    let rest = first_non_antigravity_candidate cs in
    if not (is_empty (trim_space c.provider)) && not (is_antigravity_provider c.provider)
    then some c
    else rest

-- `enforcementIsReady`
abbrev pub enforcement_is_ready : GuardRuntime → Bool
enforcement_is_ready g = g.inventory_ready && g.baseline_ready

abbrev pub not_ready_status : GroupBlockStatus
not_ready_status = record {
  blocked = true;
  code = guard_not_ready;
  http_status = 503;
  retry_after = pos 0;
}

-- The answer while the evidence that the guard starts from is not there.
abbrev pub answer_not_ready : SchedulerPickRequest → Option SchedulerAuthCandidate → SchedulerReply
answer_not_ready request none =
    answers_directly guard_not_ready 503 false
      (guard_termination_response not_ready_status (classify_model request.model))
answer_not_ready request (some c) = selects c.id

unfoldable pub guard_candidates : List SchedulerAuthCandidate → List Candidate
unfolding trim_space
guard_candidates [] = []
guard_candidates (c ∷ cs) =
    record {
      auth_id = trim_space c.id;
      auth_index = [];
      provider = c.provider;
      priority = c.priority;
    }
    ∷ guard_candidates cs

-- The request that Pick is given.
unfoldable pub pick_request : Time → PluginConfig → SchedulerPickRequest → PickRequest
unfolding guard_candidates mode_of policy_of configured_guard_groups
pick_request now cfg request = record {
  now = now;
  request_id = request.request_id;
  provider = request.provider;
  providers = request.providers;
  model = request.model;
  candidates = guard_candidates request.candidates;
  mode = mode_of cfg.guard.mode;
  enforced_groups = configured_guard_groups cfg.guard.enforced_groups;
  unknown_auth_policy = policy_of cfg.guard.unknown_auth_policy;
  unknown_model_policy = policy_of cfg.guard.unknown_model_policy;
}

abbrev pub is_model_cooldown : ErrorCode → Bool
is_model_cooldown model_cooldown = true
is_model_cooldown _ = false

abbrev pub pass_on : Bool → SchedulerReply
pass_on true = delegates
pass_on false = unhandled

-- What the handler makes of the result of Pick.
abbrev pub reply_of : Bool → PickResult → SchedulerReply
reply_of delegate result =
    if not result.handled
    then pass_on delegate
    else if not (is_empty result.selected_auth_id)
    then selects result.selected_auth_id
    else if is_model_cooldown result.error_code
    then answers_directly result.error_code 429 true (
        guard_termination_response
          (record {
            blocked = true;
            code = result.error_code;
            http_status = 429;
            retry_after = result.retry_after;
          })
          result.group)
    else refuses result.error_code 503 false

abbrev pub after_pick : Bool → Engine × PickResult → Adapter → SchedulerReply × Adapter
after_pick delegate (e, result) a =
    (reply_of delegate result, record a { guard = with_engine (is_dirty e) e a.guard })

abbrev pub pick_with :
    Time
    → ℕ
    → Time
    → SchedulerPickRequest
    → Bool
    → Option Engine
    → Adapter
    → SchedulerReply × Adapter
pick_with wall latency now request delegate none a = (pass_on delegate, a)
pick_with wall latency now request delegate (some e) a =
    let r = after_pick delegate (pick wall latency (pick_request now a.config request) e) a in
    if scheduler_request_requires_ready_guard a.config request delegate
      && not (enforcement_is_ready a.guard)
    then (answer_not_ready request (first_non_antigravity_candidate request.candidates), a)
    else r

-- `handleSchedulerPick`; `now` is what the clock gives.
unfoldable pub handle_scheduler_pick :
    Time → ℕ → Time → Option SchedulerPickRequest → Adapter → SchedulerReply × Adapter
unfolding pick pick_request should_delegate_configured_scheduler
    scheduler_request_requires_ready_guard first_non_antigravity_candidate is_dirty
handle_scheduler_pick wall latency now none a = (undecodable, a)
handle_scheduler_pick wall latency now (some request) a =
    pick_with wall latency now request
      (should_delegate_configured_scheduler a.config a.host_features request) a.guard.engine a

-- `guardSnapshotContainsAuth`
unfoldable pub guard_snapshot_contains_auth : List Entry → Text → Text → Bool
unfolding text_eq trim_space
guard_snapshot_contains_auth [] auth_id auth_index = false
guard_snapshot_contains_auth (x ∷ xs) auth_id auth_index =
    (not (is_empty (trim_space auth_index)) && text_eq x.auth_index (trim_space auth_index))
    || (not (is_empty (trim_space auth_id)) && text_eq x.auth_id (trim_space auth_id))
    || guard_snapshot_contains_auth xs auth_id auth_index

-- `usageObservedAt`
abbrev pub usage_observed_at : Time → UsageRecord → Time
usage_observed_at wall u =
    let observed_at = add_time u.requested_at u.latency in
    if is_zero u.requested_at
    then wall
    else if ltb observed_at u.requested_at
    then u.requested_at
    else observed_at

abbrev pub usage_provider : Time → Time → UsageRecord → Engine → Text
usage_provider wall now u e =
    if not (is_antigravity_provider u.provider)
      && guard_snapshot_contains_auth (snapshot wall now e).entries u.auth_id u.auth_index
    then codes "antigravity"
    else u.provider

unfoldable pub usage_observation : Time → Time → UsageRecord → Engine → UsageObservation
unfolding is_antigravity_provider guard_snapshot_contains_auth snapshot
usage_observation wall now u e = record {
  request_id = u.request_id;
  provider = usage_provider wall now u e;
  model = u.model;
  auth_id = u.auth_id;
  auth_index = u.auth_index;
  failed = u.failed;
  status_code = u.status_code;
  body = u.body;
  headers = u.response_headers;
  requested_at = u.requested_at;
  observed_at = usage_observed_at wall u;
}

abbrev after_usage : Engine × ObservationResult → Adapter → Adapter
after_usage (e, result) a = record a {
  guard = with_engine (result.changed || is_dirty e) e a.guard;
}

abbrev usage_with : Parsers → Time → Time → UsageRecord → Option Engine → Adapter → Adapter
usage_with p wall now u none a = a
usage_with p wall now u (some e) a =
    after_usage (observe_usage p wall (usage_observation wall now u e) e) a

-- `handleUsage`: whether the record was decoded, and the adapter.
unfoldable pub handle_usage : Parsers → Time → Time → Option UsageRecord → Adapter → Bool × Adapter
unfolding observe_usage usage_observation is_dirty
handle_usage p wall now none a = (false, a)
handle_usage p wall now (some u) a = (true, usage_with p wall now u a.guard.engine a)

abbrev pub intercept_status : GroupBlockStatus → ModelGroup → InterceptReply
intercept_status status group =
    if status.blocked then terminates (guard_termination_response status (some group)) else passes

abbrev pub intercept_engine : Time → Time → Adapter → ModelGroup → Option Engine → InterceptReply
intercept_engine wall now a group none = passes
intercept_engine wall now a group (some e) =
    intercept_status
      (evaluate_guard_group wall (snapshot wall now e) group a.config.guard.unknown_auth_policy
        a.config.guard.evidence_max_age)
      group

abbrev pub intercept_group : Time → Time → Adapter → Option ModelGroup → InterceptReply
intercept_group wall now a none =
    if not (text_eq a.config.guard.unknown_model_policy guard_policy_fail_closed)
    then passes
    else terminates (
        guard_termination_response
          (record {
            blocked = true;
            code = quota_group_unknown;
            http_status = 503;
            retry_after = pos 0;
          })
          none)
intercept_group wall now a (some group) =
    if not (guard_group_enabled group a.config.guard.enforced_groups)
    then passes
    else if not (enforcement_is_ready a.guard)
    then terminates (guard_termination_response not_ready_status (some group))
    else intercept_engine wall now a group a.guard.engine

-- `handleRequestAfter`; `is_same` is strings.EqualFold.
unfoldable pub handle_request_after :
    (Text → Text → Bool) → Time → Time → Option RequestIntercept → Adapter → InterceptReply
unfolding evaluate_guard_group snapshot classify_model guard_group_enabled trim_space text_eq
handle_request_after is_same wall now none a = unreadable
handle_request_after is_same wall now (some request) a =
    if not (is_same (trim_space request.to_format) (codes "antigravity"))
    then passes
    else if not (text_eq a.config.guard.mode guard_mode_enforce)
    then passes
    else intercept_group wall now a (classify_model request.model)
