-- ===== src/Lib.antt =====
-- A model of the quota circuit breaker of cpa-antigravity-quota-guard and of the parts around it: the
-- configuration, the evidence of a round of probes, the planner of priorities and the state cache.
--
-- The program is a plugin of CLIProxyAPI. Its core is the package internal/guard: for each account
-- of Antigravity and each of two model groups it keeps an entry with a breaker, which is
-- uninitialized, closed, open or half-open. The scheduler asks Pick for an account, the host
-- reports finished requests to ObserveUsage, a prober reports quotas to ApplyQuotaEvidence, the
-- inventory of accounts comes through ReplaceRoster, and the entries are saved to a file. The other
-- packages feed this core: config reads its settings, evidence sorts the results of a round of probes
-- into what may authorize a change of priorities, priority plans the changes, and state keeps what was
-- learned of each account on disk.
--
-- The files and the code they model:
--   Prelude             numbers, signed integers, lists, Go strings and Go maps
--   Guard/Types         types.go: strings with constants as data, times, durations, float64, errors
--   Guard/Records       types.go: the records, with the source's fields
--   Guard/Classify      classify.go: ClassifyModel, IsAntigravityProvider, the routes
--   Guard/Engine        engine.go: Engine, New, withConfigDefaults, validateConfig, entryKey
--   Guard/Entries       engine.go: newEntry, entryEqual, entriesEqual, sortedEntries
--   Guard/Roster        engine.go: normalizeIdentity, ReplaceRoster, RegisterIdentity
--   Guard/Reset         observe.go: extractResetAt and what it calls, explicitQuotaExhaustion
--   Guard/Breaker       observe.go: openLocked, closeLocked, the write of an entry
--   Guard/Evidence      observe.go: ApplyQuotaEvidence, sanitizeEvidenceSource
--   Guard/Observe       observe.go: lookupEntryLocked, ObserveUsage, observeGeneric429Locked
--   Guard/Status        status.go: EvidenceFresh, Ready, UniformPriority, metrics, Snapshot
--   Guard/Candidates    pick.go: the loop of Pick over the candidates
--   Guard/Pick          pick.go: Pick, pickUnknownModelLocked, retryAfter, ManualHalfOpen
--   Guard/Files         store.go: rejectSymlinkComponents, readStateFile
--   Guard/Document      store.go: validateDocument, Load
--   Guard/Store         store.go: Save, VerifyStatePathWritable
--   Guard/Steps         the operations as steps of one engine, and restarts from what it saved
-- The planner of priorities, internal/priority, orders the accounts by what is left of their quotas:
--   Priority/Floats     float64 arithmetic with its rounding
--   Priority/Quota      urgency.go, boost.go: ExtractQuotaMetrics and what it calls
--   Priority/Items      planner.go: PlanItem, normalizeOptions, planItems
--   Priority/Order      comparator.go, and the stable sort of package slices
--   Priority/Plan       planner.go: planPositive, shouldChange, PlanWithEvidence
-- The evidence, internal/evidence, stands between the probes and the planner:
--   Evidence/Records    evidence.go: its records, and the probe result of internal/provider
--   Evidence/Checks     evidence.go: identities, validQuotaEvidence, the observations
--   Evidence/Classify   evidence.go: Classify, and the two sets that the planner reads
-- The configuration, internal/config:
--   Configuration/Records   config.go: the records, Default
--   Configuration/Groups    antigravity_model_group.go, and yamlText of parse.go
--   Configuration/Paths     config.go: validatePluginDataPath, with path.Clean
--   Configuration/Guarding  config.go: GuardConfig.Validate, Dynamic and toConfig
--   Configuration/Dynamic   config.go: DynamicConfig.Validate, ApplyTo, Config.Validate
--   Configuration/Raw       config.go: rawConfig.applyTolerant, LoadBytes after its decoding
--   Configuration/Clock     schedule.go: the time of day, strings and strconv in parseHHMM
--   Configuration/Schedule  schedule.go: parseHHMM, IsInScheduleWindow, NextWindowStart
-- The state cache, internal/state:
--   Cache/Normalize     estimator.go: QuotaSample, normalizeSampleHistory
--   Cache/Samples       estimator.go: UpdateSamplesAndCycleBurnRate, sampleAppended
--   Cache/Records       store.go: Entry, Store, document and what the operations take
--   Cache/Marks         store.go: MarkProbeSuccess, MarkProbeFailure, MarkProbeScheduled
--   Cache/Lookups       store.go: GetEntry and the other readers, GetSamplesByProbeRound
--   Cache/Reads         store.go: NeedsProbe, the historical evidence, the cooldowns, the settings
--   Cache/Disk          store.go: Load, SaveAtomic
--   Cache/Steps         the operations of Store as steps
-- The adapter of the guard, internal/runtime:
--   Runtime/Records     official_guard.go, official_wire.go: its state and messages; host.AuthFile
--   Runtime/Identities  official_guard.go: identities and fingerprints of the host's accounts
--   Runtime/Quota       official_guard.go: normalizedGuardQuota, applyGuardEvidence
--   Runtime/Groups      official_handlers.go: evaluateGuardGroup, guardTerminationResponse
--   Runtime/Handlers    official_handlers.go: handleSchedulerPick, handleUsage, handleRequestAfter
-- The other files hold predicates, proofs and examples.
--
-- How the code is read. An operation that changes the engine is a function that returns the new
-- engine with its result; the mutex makes each one step. Save has two locked parts, and other
-- operations may run between them. What time.Now returns is the argument `wall`. A time is the
-- number of nanoseconds since the zero value of time.Time, always in UTC; a duration is a signed
-- integer, differences of times saturate and sums wrap as int64 does. Counters of type uint64 wrap
-- at 2^64, and so does int at 2^63; only the counters of one loop over the candidates are
-- unbounded, since they are at most the number of candidates. A finite float64 is the integer
-- multiple of 2^-1074 that it stands for, so comparisons are exact; where the
-- guard multiplies or divides floats, the result is a parameter, and the planner's arithmetic is
-- rounded to nearest even. Strings are lists of code points, with the bytes of UTF-8 counted where
-- the code counts bytes; a string type with constants is a data type with one more constructor for
-- all other strings. A map is an association list, walked in its order; Go's order is any. A
-- pointer into the entries is the key under which the entry was found. A time whose hour is
-- read is the nanoseconds of the calendar in its location. An error of the configuration is none or
-- false, without its text. A message of the host is its decoded fields, none if it is
-- not decoded, and an answer is its code, status and group without the text of its message. A method of
-- Store that locks it is one step, and what it changes is in the
-- store that it returns, the cooldowns that GetActiveCooldowns prunes included. Samples are numbered
-- with uint64; the theorem on all operations of a store takes fewer than 2^64 - 1 of them, so that no
-- number wraps. No loop needs fuel: each goes over a list.
--
-- encoding/json leaves out the id of the request that holds a half-open lease, whose field is not
-- exported: what is kept of a document is `exported`.
--
-- Parameters: the digest of crypto/sha256, the parsers of package time, net/http and strconv, the
-- codec of encoding/json, the parser and the printer of durations, the fold of strings.EqualFold, the
-- error of a context, and what the operating system answers in a run of Load, Save or SaveAtomic.
--
-- Not modelled: the identity of errors beyond their kind, the text of error messages, the reader of
-- YAML in internal/config/parse.go, the worker, the swap of generations and the management routes of
-- the adapter, and the packages that talk to the host, to Antigravity's servers and to a browser: the
-- rest of internal/runtime, internal/host, internal/provider, internal/apply,
-- internal/management and cmd/devserver.
pub mod Prelude
pub mod Guard
pub mod Priority
pub mod Evidence
pub mod Configuration
pub mod Cache
pub mod Runtime
