-- ===== src/Runtime/Records.antt =====
-- internal/runtime: the state of the guard's adapter, and the messages that it takes and gives.
use cpa_antigravity_quota_gu.Prelude.{
  ℕ, Bool, Option, List, [], if◌then◌else◌, ℤ, Text, codes, text_eq, Dict,
}
use cpa_antigravity_quota_gu.Guard.Types.{
  Time, Duration, Mode, unset_mode, observe, enforce, other_mode, Policy, unset_policy, fail_closed,
  fail_open, other_policy, ModelGroup, gemini, claude_gpt, other_group,
}
use cpa_antigravity_quota_gu.Guard.Records.{ErrorCode}
use cpa_antigravity_quota_gu.Guard.Engine.{Engine}
use cpa_antigravity_quota_gu.Configuration.Records.{PluginConfig}

-- A text read as a value of the guard's string types: `guard.Mode(s)`, `guard.Policy(s)`,
-- `guard.ModelGroup(s)`.
unfoldable pub mode_of : Text → Mode
unfolding text_eq
mode_of s =
    if text_eq s []
    then unset_mode
    else if text_eq s (codes "observe")
    then observe
    else if text_eq s (codes "enforce")
    then enforce
    else other_mode s

unfoldable pub policy_of : Text → Policy
unfolding text_eq
policy_of s =
    if text_eq s []
    then unset_policy
    else if text_eq s (codes "fail_closed")
    then fail_closed
    else if text_eq s (codes "fail_open")
    then fail_open
    else other_policy s

unfoldable pub group_of : Text → ModelGroup
unfolding text_eq
group_of s =
    if text_eq s (codes "gemini")
    then gemini
    else if text_eq s (codes "claude_gpt")
    then claude_gpt
    else other_group s

-- `host.AuthFile`, without the status and the raw JSON, which the adapter does not read.
pub record AuthFile : Type 0 where
  pub id : Text
  pub name : Text
  pub auth_index : Text
  pub credential_type : Text
  pub provider : Text
  pub disabled : Bool
  pub priority : ℤ
  pub account : Text
  pub email : Text

-- `guardRuntimeState`, without its locks and the handles of its worker. The signal to persist is
-- whether the channel of one place holds a message.
pub record GuardRuntime : Type 0 where
  pub generation : ℕ
  pub engine : Option Engine
  pub path : Text
  pub persist_signal : Bool
  pub last_persist_err : Text
  pub last_probe_err : Text
  pub inventory_ready : Bool
  pub baseline_ready : Bool

-- `Runtime`, as far as the adapter reads it.
pub record Adapter : Type 0 where
  pub config : PluginConfig
  pub host_features : List Text
  pub guard : GuardRuntime

pub record SchedulerAuthCandidate : Type 0 where
  pub id : Text
  pub provider : Text
  pub priority : ℤ

pub record SchedulerPickRequest : Type 0 where
  pub request_id : Text
  pub provider : Text
  pub providers : List Text
  pub model : Text
  pub candidates : List SchedulerAuthCandidate

pub record UsageRecord : Type 0 where
  pub request_id : Text
  pub provider : Text
  pub model : Text
  pub auth_id : Text
  pub auth_index : Text
  pub requested_at : Time
  pub latency : Duration
  pub failed : Bool
  pub status_code : ℤ
  pub body : Text
  pub response_headers : Dict (List Text)

pub record RequestIntercept : Type 0 where
  pub to_format : Text
  pub model : Text

-- `groupBlockStatus`
pub record GroupBlockStatus : Type 0 where
  pub blocked : Bool
  pub code : ErrorCode
  pub http_status : ℕ
  pub retry_after : Duration

-- `guardTerminationResponse`: the code and the group of the body, and the seconds of Retry-After.
pub record Termination : Type 0 where
  pub status_code : ℕ
  pub code : ErrorCode
  pub group : Option ModelGroup
  pub retry_seconds : Option ℕ

-- What the host is answered to a request for an account: `schedulerPickResponse`, or a failure.
pub data SchedulerReply : Type 0 where
  undecodable unhandled delegates : SchedulerReply
  selects : Text → SchedulerReply
  refuses : (code : ErrorCode) → (status : ℕ) → (retryable : Bool) → SchedulerReply
  answers_directly :
      (code : ErrorCode) → (status : ℕ) → (retryable : Bool) → Termination → SchedulerReply

-- What the host is answered to a request on its way: `requestInterceptResponse`, or a failure.
pub data InterceptReply : Type 0 where
  unreadable passes : InterceptReply
  terminates : Termination → InterceptReply
