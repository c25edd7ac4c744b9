-- ===== src/Guard/Examples.antt =====
-- Small engines of internal/guard, runs of its operations on them, and the theorems at them.
pub mod Selection
pub mod Breaker
pub mod Restart
pub mod Roster
use cpa_antigravity_quota_gu.Prelude.{
  ℕ, ◌+◌, ◌*◌, false, true, none, some, List, [], ◌∷◌, ◌++◌, pos, Text, codes,
}
use cpa_antigravity_quota_gu.Guard.Types.{
  Time, second, minute, gemini, closed, opened, no_reason, generic_429, quota_zero, finite, enforce,
  unset_policy,
}
use cpa_antigravity_quota_gu.Guard.Records.{
  default_config, Identity, Entry, Candidate, PickRequest, no_metrics, UsageObservation,
  QuotaEvidence,
}
use cpa_antigravity_quota_gu.Guard.Engine.{Engine, initial_engine, entry_key}
use cpa_antigravity_quota_gu.Guard.Entries.{new_entry}
use cpa_antigravity_quota_gu.Guard.Reset.{Parsers}

-- Parsers that read nothing, and a digest that is always the same.
abbrev pub no_parsers : Parsers
no_parsers = record {
  rfc3339 = λ s. none;
  http_time = λ s. none;
  duration = λ s. none;
  parse_float = λ s. none;
  seconds = λ x. pos 0;
  unix = λ x. 0;
  div_1000 = λ x. x;
  decode = λ s. none;
}

abbrev pub digest : Text → Text
digest s = codes "digest"

abbrev pub noon : Time
noon = 63000000000 * second

abbrev pub first_account : Identity
first_account = record {
  auth_id = codes "one";
  auth_index = codes "1";
  identity_fingerprint = codes "f1";
  provider = codes "antigravity";
  priority = pos 0;
}

abbrev pub second_account : Identity
second_account = record first_account {
  auth_id = codes "two";
  auth_index = codes "2";
  identity_fingerprint = codes "f2";
}

-- A breaker that opened before noon and recovers at noon.
abbrev pub recovering : Entry
recovering = record {
  auth_id = codes "one";
  auth_index = codes "1";
  identity_fingerprint = codes "f1";
  provider = codes "antigravity";
  priority = pos 0;
  model_group = gemini;
  state = opened;
  reason = generic_429;
  opened_at = 62999999100 * second;
  recover_at = noon;
  reset_at = 0;
  failure_count = pos 2;
  last_failure_at = 62999999100 * second;
  half_open_started_at = 0;
  half_open_lease_until = 0;
  last_evidence_source = codes "usage_429";
  last_evidence_at = 62999999100 * second;
  last_quota_evidence_at = 62999999000 * second;
  remaining_percent = some (finite (pos 7));
  half_open_request_id = [];
}

-- An account with fresh evidence.
abbrev pub healthy : Entry
healthy = record recovering {
  auth_id = codes "two";
  auth_index = codes "2";
  identity_fingerprint = codes "f2";
  state = closed;
  reason = no_reason;
  opened_at = 0;
  recover_at = 0;
  failure_count = pos 0;
  last_failure_at = 0;
  last_evidence_at = 62999999000 * second;
}

abbrev pub first_key : Text
first_key = codes "1" ++ (0 ∷ codes "gemini")

abbrev pub second_key : Text
second_key = codes "2" ++ (0 ∷ codes "gemini")

abbrev pub two_accounts : Engine
two_accounts = record (initial_engine default_config) {
  entries = (first_key, recovering) ∷ (second_key, healthy) ∷ [];
  auth_by_id = (codes "one", codes "1") ∷ (codes "two", codes "2") ∷ [];
}

abbrev pub candidate_of : Identity → Candidate
candidate_of i = record {
  auth_id = i.auth_id;
  auth_index = i.auth_index;
  provider = i.provider;
  priority = i.priority;
}

abbrev pub request_at : Time → Text → PickRequest
request_at now id = record {
  now = now;
  request_id = id;
  provider = codes "antigravity";
  providers = [];
  model = codes "Gemini-3-Pro";
  candidates = candidate_of first_account ∷ candidate_of second_account ∷ [];
  mode = enforce;
  enforced_groups = [];
  unknown_auth_policy = unset_policy;
  unknown_model_policy = unset_policy;
}

abbrev pub failure_at : Time → UsageObservation
failure_at t = record {
  request_id = codes "r1";
  provider = codes "antigravity";
  model = codes "gemini-3-pro";
  auth_id = codes "one";
  auth_index = codes "1";
  failed = true;
  status_code = pos 429;
  body = codes "slow down";
  headers = [];
  requested_at = t;
  observed_at = t;
}

abbrev pub evidence_at : Time → QuotaEvidence
evidence_at t = record {
  auth_index = codes "1";
  auth_id = codes "one";
  identity_fingerprint = [];
  group = gemini;
  remaining = finite (pos 9);
  reset_at = 0;
  observed_at = t;
  source = [];
}
