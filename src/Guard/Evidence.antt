-- ===== src/Guard/Evidence.antt =====
-- internal/guard/observe.go: the evidence of quota probes.
use cpa_antigravity_quota_gu.Prelude.{
  ℕ, ◌+◌, ◌*◌, Bool, true, false, ◌&&◌, ◌||◌, not, Option, none, some, [], ◌∷◌, ltb, leb, ◌==◌,
  if◌then◌else◌, pos, ltb_ℤ, leb_ℤ, u64, Text, codes, text_eq, is_empty, trim_space, to_lower,
  byte_len, take_bytes, lookup,
}
use cpa_antigravity_quota_gu.Guard.Types.{
  Time, group_valid, uninitialized, no_reason, quota_zero, Float64, finite, pos_inf, neg_inf,
  float_one, invalid_evidence, Fallible, returns, fails,
}
use cpa_antigravity_quota_gu.Guard.Records.{Entry, QuotaEvidence, EvidenceResult, Metrics}
use cpa_antigravity_quota_gu.Guard.Engine.{Engine, entry_key}
use cpa_antigravity_quota_gu.Guard.Entries.{entry_equal}
use cpa_antigravity_quota_gu.Guard.Reset.{not_finite}
use cpa_antigravity_quota_gu.Guard.Breaker.{
  close_entry, commit, count_opened, count_unknown_auth, is_manual, is_outdated, is_quota_zero,
  is_uninitialized, open_entry, or_wall,
}

abbrev pub safe_source : ℕ → Bool
safe_source c =
    (leb b'a' c && leb c b'z') || (leb b'0' c && leb c b'9') || c == b'_' || c == b'-' || c == b'.'

unfoldable pub keep_safe : Text → Text
keep_safe [] = []
keep_safe (c ∷ s) = if safe_source c then c ∷ keep_safe s else keep_safe s

abbrev pub evidence_source_quota_probe : Text
evidence_source_quota_probe = codes "quota_probe"

abbrev or_quota_probe : Text → Text
or_quota_probe [] = evidence_source_quota_probe
or_quota_probe (c ∷ s) = c ∷ s

unfoldable pub sanitize_evidence_source : Text → Text
unfolding trim_space to_lower byte_len take_bytes keep_safe
sanitize_evidence_source source =
    let s = to_lower (trim_space source) in
    or_quota_probe (keep_safe (if ltb 64 (byte_len s) then take_bytes 64 s else s))

-- `x < 0`, `x > 100`, `x <= 0` and `x > 0` on a float64.
abbrev pub float_negative : Float64 → Bool
float_negative (finite z) = ltb_ℤ z (pos 0)
float_negative neg_inf = true
float_negative _ = false

abbrev pub float_above_hundred : Float64 → Bool
float_above_hundred (finite z) = ltb_ℤ (pos (100 * float_one)) z
float_above_hundred pos_inf = true
float_above_hundred _ = false

abbrev pub float_positive : Float64 → Bool
float_positive (finite z) = ltb_ℤ (pos 0) z
float_positive pos_inf = true
float_positive _ = false

abbrev pub float_at_most_zero : Float64 → Bool
float_at_most_zero (finite z) = leb_ℤ z (pos 0)
float_at_most_zero neg_inf = true
float_at_most_zero _ = false

-- The part of `ApplyQuotaEvidence` that writes the entry.
unfoldable pub apply_evidence : QuotaEvidence → Entry → Entry
unfolding open_entry close_entry sanitize_evidence_source
apply_evidence v entry =
    let seen = record entry {
      remaining_percent = some v.remaining;
      last_evidence_at = v.observed_at;
      last_quota_evidence_at = v.observed_at;
      last_evidence_source = sanitize_evidence_source v.source;
    } in
    if float_at_most_zero v.remaining && ltb v.observed_at v.reset_at
    then open_entry quota_zero v.observed_at v.reset_at v.reset_at seen
    else if float_positive v.remaining
        && (is_uninitialized entry.state || is_quota_zero entry.reason || is_manual entry.reason)
    then close_entry seen
    else seen

unfoldable pub evidence_metrics : QuotaEvidence → Entry → Metrics → Metrics
unfolding count_opened
evidence_metrics v entry m =
    if float_at_most_zero v.remaining && ltb v.observed_at v.reset_at
    then count_opened entry m
    else m

-- Evidence that does not fit the entry: another id or fingerprint.
abbrev pub evidence_mismatch : QuotaEvidence → Entry → Bool
evidence_mismatch v entry =
    (not (is_empty v.auth_id) && not (text_eq entry.auth_id (trim_space v.auth_id)))
    || (not (is_empty v.identity_fingerprint)
        && not (text_eq entry.identity_fingerprint (trim_space v.identity_fingerprint)))

abbrev ignored : Entry → EvidenceResult
ignored entry = record {
  changed = false;
  ignored = true;
  state = entry.state;
  reason = entry.reason;
}

-- What `ApplyQuotaEvidence` does under the lock, its counter of probes apart.
unfoldable pub evidence_locked :
    Time → QuotaEvidence → Text → Option Entry → Engine → Engine × EvidenceResult
unfolding apply_evidence evidence_metrics commit text_eq trim_space
evidence_locked wall v key none e = (
  count_unknown_auth e,
  record { changed = false; ignored = true; state = uninitialized; reason = no_reason },
)
evidence_locked wall v key (some entry) e =
    let after = apply_evidence v entry in
    if evidence_mismatch v entry
    then (count_unknown_auth e, ignored entry)
    else if is_outdated entry v.observed_at
    then (e, ignored entry)
    else (
      commit wall v.observed_at key entry after
          (record e { metrics = evidence_metrics v entry e.metrics }),
      record {
        changed = not (entry_equal entry after);
        ignored = false;
        state = after.state;
        reason = after.reason;
      },
    )

abbrev pub evidence_invalid : QuotaEvidence → Bool
evidence_invalid v =
    is_empty (trim_space v.auth_index)
    || not (group_valid v.group)
    || not_finite v.remaining
    || float_negative v.remaining
    || float_above_hundred v.remaining

abbrev pub normalized_evidence : Time → QuotaEvidence → QuotaEvidence
normalized_evidence wall evidence = record evidence {
  observed_at = or_wall wall evidence.observed_at;
  source = or_quota_probe evidence.source;
}

-- `ApplyQuotaEvidence`
unfoldable pub apply_quota_evidence :
    Time → QuotaEvidence → Engine → Fallible (Engine × EvidenceResult)
unfolding evidence_locked entry_key lookup trim_space
apply_quota_evidence wall evidence e =
    let v = normalized_evidence wall evidence in
    let e' = record e {
      metrics = record (e.metrics) {
        quota_probe_success_total = u64 (e.metrics.quota_probe_success_total + 1);
      };
    } in
    let key = entry_key (trim_space v.auth_index) v.group in
    if evidence_invalid evidence
    then fails invalid_evidence
    else returns (evidence_locked wall v key (lookup key e.entries) e')

unfoldable pub record_quota_probe_error : Engine → Engine
record_quota_probe_error e = record e {
  metrics = record (e.metrics) {
    quota_probe_error_total = u64 (e.metrics.quota_probe_error_total + 1);
  };
}
