-- ===== src/Cache/Marks.antt =====
-- internal/state/store.go: what a probe leaves in the cache.
use cpa_antigravity_quota_gu.Prelude.{
  Bool, false, ◌&&◌, ◌||◌, not, Option, none, some, List, [], ◌∷◌, ◌++◌, ltb, if◌then◌else◌, ℤ, pos,
  leb_ℤ, ltb_ℤ, Text, codes, is_empty, trim_space, to_lower, contains, byte_len, take_bytes, lookup,
  insert,
}
use cpa_antigravity_quota_gu.Guard.Types.{Error, Fallible, returns, ◌>>◌, proceed}
use cpa_antigravity_quota_gu.Configuration.Records.{DynamicConfig}
use cpa_antigravity_quota_gu.Cache.Normalize.{QuotaSample}
use cpa_antigravity_quota_gu.Cache.Samples.{Learned, change_last, update_samples, sample_appended}
use cpa_antigravity_quota_gu.Cache.Records.{
  CacheEntry, no_cache_entry, ProbeSuccess, ProbeFailure, ProbeSchedule, CacheStore,
}

abbrev pub cache_schema_version : ℤ
cache_schema_version = pos 1

-- `entryKey`
unfoldable pub cache_key : Text → Text → Text
unfolding trim_space
cache_key auth_index model_group =
    let group = trim_space model_group in
    if is_empty group
    then trim_space auth_index
    else trim_space auth_index ++ (codes "|model_group=" ++ group)

abbrev pub entry_or_zero : Option CacheEntry → CacheEntry
entry_or_zero none = no_cache_entry
entry_or_zero (some x) = x

-- The capacity of the window of samples.
abbrev pub default_capacity : Option DynamicConfig → ℤ
default_capacity none = pos 6
default_capacity (some d) =
    if ltb_ℤ (pos 0) d.quota_sample_capacity then d.quota_sample_capacity else pos 6

abbrev pub sample_capacity_of : ProbeSuccess → Option DynamicConfig → ℤ
sample_capacity_of p dynamic =
    if leb_ℤ p.sample_capacity (pos 0) then default_capacity dynamic else p.sample_capacity

-- The round of the probe, in the sample that it added.
abbrev pub with_round : Text → QuotaSample → QuotaSample
with_round round x = record x { probe_round_id = round }

abbrev pub mark_round : Bool → Text → List QuotaSample → List QuotaSample
mark_round added round xs =
    if added && not (is_empty round) then change_last (with_round round) xs else xs

-- The entry that a successful probe leaves.
unfoldable pub success_entry : ProbeSuccess → CacheEntry → Learned → CacheEntry
unfolding trim_space sample_appended
success_entry p previous l = record {
  schema_version = cache_schema_version;
  provider = p.provider;
  model_group = trim_space p.model_group;
  auth_index = trim_space p.auth_index;
  observed_at = p.observed_at;
  reset_at = p.reset_at;
  remaining = p.remaining;
  short_window_reset_at = p.short_window_reset_at;
  short_window_remaining = p.short_window_remaining;
  long_window_reset_at = p.long_window_reset_at;
  long_window_remaining = p.long_window_remaining;
  cycle_burn_rate = l.rate;
  samples =
      mark_round (sample_appended previous.samples l.history.samples) (trim_space p.probe_round_id)
        l.history.samples;
  learning_baseline_sequence = l.history.baseline;
  last_error = [];
  last_failure_at = 0;
  next_probe_at = p.next_probe_at;
  auth_invalid = p.auth_invalid;
  plan_type = p.plan_type;
  source = p.source;
}

unfoldable pub learn_from : ProbeSuccess → CacheEntry → Option DynamicConfig → Learned
unfolding update_samples
learn_from p previous dynamic =
    update_samples previous.cycle_burn_rate previous.samples previous.learning_baseline_sequence
      p.observed_at p.short_window_reset_at p.short_window_remaining p.long_window_remaining
      (sample_capacity_of p dynamic)

abbrev pub put_entry : Text → CacheEntry → CacheStore → CacheStore
put_entry key x s = record s { entries = insert key x s.entries }

-- `MarkProbeSuccess`; `ctx` is the error of the context.
unfoldable pub mark_probe_success : Option Error → ProbeSuccess → CacheStore → Fallible CacheStore
unfolding cache_key lookup insert success_entry learn_from
mark_probe_success ctx p s = do
  proceed ctx
  let key = cache_key p.auth_index p.model_group
  let previous = entry_or_zero (lookup key s.entries)
  returns (put_entry key (success_entry p previous (learn_from p previous s.dynamic_config)) s)

-- `sanitizeProbeError`
abbrev pub sensitive_words : List Text
sensitive_words =
    codes "authorization"
    ∷ codes "bearer"
    ∷ codes "token"
    ∷ codes "api_key"
    ∷ codes "apikey"
    ∷ codes "secret"
    ∷ codes "credential"
    ∷ codes "raw-auth"
    ∷ codes "raw auth"
    ∷ codes "auth json"
    ∷ []

abbrev pub redacted : Text
redacted = codes "probe failed: sensitive upstream error redacted"

unfoldable pub any_word : List Text → Text → Bool
unfolding contains
any_word [] s = false
any_word (w ∷ ws) s = contains s w || any_word ws s

unfoldable pub is_sensitive : Text → Bool
unfolding any_word to_lower
is_sensitive text = any_word sensitive_words (to_lower text)

unfoldable pub sanitize_probe_error : Option Text → Text
unfolding trim_space is_sensitive byte_len take_bytes
sanitize_probe_error none = []
sanitize_probe_error (some message) =
    let text = trim_space message in
    if is_sensitive text
    then redacted
    else if ltb 240 (byte_len text)
    then take_bytes 240 text
    else text

-- The entry that a failed probe leaves: the evidence of before, with the error.
unfoldable pub failure_entry : ProbeFailure → CacheEntry → CacheEntry
unfolding trim_space sanitize_probe_error
failure_entry p previous = record previous {
  schema_version = cache_schema_version;
  provider = p.provider;
  model_group = trim_space p.model_group;
  auth_index = trim_space p.auth_index;
  last_error = sanitize_probe_error p.err;
  last_failure_at = p.observed_at;
  next_probe_at = p.next_probe_at;
}

-- `MarkProbeFailure`
unfoldable pub mark_probe_failure : Option Error → ProbeFailure → CacheStore → Fallible CacheStore
unfolding cache_key lookup insert failure_entry
mark_probe_failure ctx p s = do
  proceed ctx
  let key = cache_key p.auth_index p.model_group
  returns (put_entry key (failure_entry p (entry_or_zero (lookup key s.entries))) s)

unfoldable pub schedule_entry : ProbeSchedule → CacheEntry → CacheEntry
unfolding trim_space
schedule_entry p previous = record previous {
  schema_version = cache_schema_version;
  provider = p.provider;
  model_group = trim_space p.model_group;
  auth_index = trim_space p.auth_index;
  next_probe_at = p.next_probe_at;
}

-- `MarkProbeScheduled`
unfoldable pub mark_probe_scheduled :
    Option Error → ProbeSchedule → CacheStore → Fallible CacheStore
unfolding cache_key lookup insert schedule_entry
mark_probe_scheduled ctx p s = do
  proceed ctx
  let key = cache_key p.auth_index p.model_group
  returns (put_entry key (schedule_entry p (entry_or_zero (lookup key s.entries))) s)
