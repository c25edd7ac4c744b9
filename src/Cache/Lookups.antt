-- ===== src/Cache/Lookups.antt =====
-- internal/state/store.go: what is read of an entry, and the samples of a round.
use cpa_antigravity_quota_gu.Prelude.{
  Bool, ◌||◌, not, Option, none, some, List, [], ◌∷◌, ◌++◌, ltb, ◌==◌, if◌then◌else◌, Text, text_eq,
  text_lt, is_empty, trim_space, Dict, lookup,
}
use cpa_antigravity_quota_gu.Guard.Types.{Float64}
use cpa_antigravity_quota_gu.Priority.Floats.{less_eq}
use cpa_antigravity_quota_gu.Priority.Quota.{default_cycle_burn_rate, present}
use cpa_antigravity_quota_gu.Cache.Normalize.{QuotaSample}
use cpa_antigravity_quota_gu.Cache.Samples.{rate_of}
use cpa_antigravity_quota_gu.Cache.Records.{CacheEntry, ProbeSampleRecord, CacheStore}
use cpa_antigravity_quota_gu.Cache.Marks.{cache_key}

-- `GetEntry`, `HasEntry`
unfoldable pub get_entry : Text → Text → CacheStore → Option CacheEntry
unfolding cache_key lookup
get_entry auth_index model_group s = lookup (cache_key auth_index model_group) s.entries

unfoldable pub has_entry : Text → Text → CacheStore → Bool
unfolding get_entry
has_entry auth_index model_group s = present (get_entry auth_index model_group s)

-- `GetCycleBurnRate`
abbrev pub rate_or_default : Option CacheEntry → Float64
rate_or_default none = default_cycle_burn_rate
rate_or_default (some x) = rate_of x.cycle_burn_rate

unfoldable pub get_cycle_burn_rate : Text → Text → CacheStore → Float64
unfolding get_entry default_cycle_burn_rate less_eq
get_cycle_burn_rate auth_index model_group s = rate_or_default (get_entry auth_index model_group s)

-- `GetSamples`
abbrev pub samples_of : Option CacheEntry → List QuotaSample
samples_of none = []
samples_of (some x) = x.samples

unfoldable pub get_samples : Text → Text → CacheStore → List QuotaSample
unfolding get_entry
get_samples auth_index model_group s = samples_of (get_entry auth_index model_group s)

-- `GetSamplesByProbeRound`: the samples of an entry, the entries, and the order of the records.
unfoldable pub round_samples : Text → Text → Text → List QuotaSample → List ProbeSampleRecord
unfolding text_eq
round_samples round auth_index group [] = []
round_samples round auth_index group (x ∷ xs) =
    let rest = round_samples round auth_index group xs in
    if text_eq x.probe_round_id round
    then record { auth_index = auth_index; model_group = group; sample = x } ∷ rest
    else rest

unfoldable pub round_records : Text → Text → Dict CacheEntry → List ProbeSampleRecord
unfolding text_eq round_samples
round_records round group [] = []
round_records round group ((key, x) ∷ m) =
    let rest = round_records round group m in
    if text_eq x.model_group group
    then round_samples round x.auth_index group x.samples ++ rest
    else rest

unfoldable pub record_before : ProbeSampleRecord → ProbeSampleRecord → Bool
unfolding text_lt
record_before a b =
    if not (a.sample.observed_at == b.sample.observed_at)
    then ltb b.sample.observed_at a.sample.observed_at
    else if not (a.sample.sequence == b.sample.sequence)
    then ltb b.sample.sequence a.sample.sequence
    else text_lt a.auth_index b.auth_index

unfoldable pub insert_record : ProbeSampleRecord → List ProbeSampleRecord → List ProbeSampleRecord
unfolding record_before
insert_record a [] = a ∷ []
insert_record a (b ∷ bs) = if record_before b a then b ∷ insert_record a bs else a ∷ b ∷ bs

unfoldable pub sort_records : List ProbeSampleRecord → List ProbeSampleRecord
unfolding insert_record
sort_records [] = []
sort_records (a ∷ as') = insert_record a (sort_records as')

unfoldable pub get_samples_by_probe_round : Text → Text → CacheStore → List ProbeSampleRecord
unfolding trim_space round_records sort_records
get_samples_by_probe_round probe_round_id model_group s =
    let round = trim_space probe_round_id in
    let group = trim_space model_group in
    if is_empty round || is_empty group
    then []
    else sort_records (round_records round group s.entries)
