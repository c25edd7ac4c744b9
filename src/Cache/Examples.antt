-- ===== src/Cache/Examples.antt =====
-- internal/state on one account: two probes, a failure, a save and a load.
use cpa_antigravity_quota_gu.Prelude.{
  ℕ, ◌+◌, ◌*◌, ◌≤◌, ◌≡◌, refl, true, false, Option, none, some, List, [], ◌∷◌, arith, pos, Text,
  codes, some_injective, subst, is_empty, trim_space, eq_ℤ, length, lookup, byte_len,
}
use cpa_antigravity_quota_gu.Guard.Types.{Time, minute, second, returns, Fallible}
use cpa_antigravity_quota_gu.Guard.Files.{Files, found}
use cpa_antigravity_quota_gu.Priority.Floats.{float_zero}
use cpa_antigravity_quota_gu.Cache.Normalize.{QuotaSample}
use cpa_antigravity_quota_gu.Cache.Samples.{update_samples, capacity_of}
use cpa_antigravity_quota_gu.Cache.Appending.{Kept}
use cpa_antigravity_quota_gu.Cache.Learning.{update_samples-Kept}
use cpa_antigravity_quota_gu.Cache.Records.{
  CacheEntry, ProbeSuccess, ProbeFailure, ProbeCheck, CooldownEntry, CacheStore,
}
use cpa_antigravity_quota_gu.Cache.Marks.{
  cache_schema_version, mark_probe_success, mark_probe_failure, sanitize_probe_error, is_sensitive,
}
use cpa_antigravity_quota_gu.Cache.Lookups.{get_entry}
use cpa_antigravity_quota_gu.Cache.Reads.{
  needs_probe, get_historical_evidence, get_active_cooldowns, clear_expired_cooldowns, set_cooldown,
}
use cpa_antigravity_quota_gu.Cache.Disk.{
  CacheCodec, load_cache, CacheRun, document_of, empty_store, save_atomic, with_newline,
}
use cpa_antigravity_quota_gu.Cache.Steps.{succeeded, failed, ReachedIn, fresh_store, one_more}
use cpa_antigravity_quota_gu.Cache.Invariant.{TidyStore, ReachedIn-TidyStore}
use cpa_antigravity_quota_gu.Cache.Errors.{sanitize_probe_error-clean, mark_probe_failure-evidence}
use cpa_antigravity_quota_gu.Cache.Restart.{load-save_atomic}
use cpa_antigravity_quota_gu.Cache.Due.{is_due, needs_probe-is_due}
use cpa_antigravity_quota_gu.Cache.Cooldowns.{still_running, until_of, get_active_cooldowns-lookup}

abbrev noon : Time
noon = 63000000000 * second

abbrev seen_at : ℕ → ProbeSuccess
seen_at left = record {
  auth_index = codes "7";
  provider = codes "antigravity";
  model_group = codes "gemini";
  observed_at = noon;
  reset_at = noon + 90 * minute;
  remaining = pos left;
  short_window_reset_at = noon + 90 * minute;
  short_window_remaining = some (pos left);
  long_window_reset_at = 0;
  long_window_remaining = some (pos (left + 10));
  next_probe_at = noon + 15 * minute;
  auth_invalid = false;
  plan_type = codes "pro";
  source = codes "fresh_probe";
  sample_capacity = pos 6;
  probe_round_id = codes " r1 ";
}

abbrev unreachable : ProbeFailure
unreachable = record {
  auth_index = codes "7";
  provider = codes "antigravity";
  model_group = codes "gemini";
  observed_at = noon + 15 * minute;
  err = some (codes "status 401: Bearer abc");
  next_probe_at = noon + 30 * minute;
}

abbrev stored_or : CacheStore → Fallible CacheStore → CacheStore
stored_or s (Fallible.fails e) = s
stored_or s (returns t) = t

abbrev nothing : CacheStore
nothing = empty_store (codes "cache.json")

abbrev once : CacheStore
once = stored_or nothing (mark_probe_success none (seen_at 80) nothing)

abbrev twice : CacheStore
twice = stored_or nothing (mark_probe_success none (seen_at 60) once)

abbrev thrice : CacheStore
thrice = stored_or nothing (mark_probe_failure none unreachable twice)

abbrev samples_in : Option CacheEntry → List QuotaSample
samples_in none = []
samples_in (some x) = x.samples

abbrev sequences : List QuotaSample → List ℕ
sequences [] = []
sequences (x ∷ xs) = x.sequence ∷ sequences xs

two_samples : sequences (samples_in (get_entry (codes "7") (codes "gemini") thrice)) ≡ 1 ∷ 2 ∷ []
unfolding mark_probe_success mark_probe_failure get_entry
two_samples = refl

reached : ReachedIn 3 thrice
unfolding mark_probe_success mark_probe_failure
reached =
    one_more 2 twice thrice
      (one_more 1 once twice
        (one_more 0 nothing once (fresh_store (codes "cache.json"))
          (succeeded none (seen_at 80) once refl))
        (succeeded none (seen_at 60) twice refl))
      (failed none unreachable thrice refl)

ReachedIn-TidyStore_example : TidyStore 3 thrice
ReachedIn-TidyStore_example = ReachedIn-TidyStore 3 thrice reached (omega arith)

-- Two samples of an old version, without sequences.
abbrev old_samples : List QuotaSample
old_samples = unnumbered 90 ∷ unnumbered 70 ∷ []
  where
    unnumbered : ℕ → QuotaSample
    unnumbered left = record {
      sequence = 0;
      observed_at = noon;
      short_window_reset_at = noon + 90 * minute;
      short_window_rem = pos left;
      long_window_rem = pos left;
      probe_round_id = [];
    }

update_samples-Kept_example :
    Kept
      (capacity_of (pos 6))
      2
      3
      (update_samples float_zero old_samples 0 noon
        (noon + 90 * minute)
        (some (pos 50))
        (some (pos 65))
        (pos 6)).history
update_samples-Kept_example =
    update_samples-Kept float_zero old_samples 0 0 noon (noon + 90 * minute) (some (pos 50))
      (some (pos 65)) (pos 6) (omega arith, (omega arith, tt)) (omega arith)

sanitize_probe_error-clean_example :
    (is_sensitive (sanitize_probe_error unreachable.err) ≡ false)
    × (byte_len (sanitize_probe_error unreachable.err) ≤ 240)
sanitize_probe_error-clean_example = sanitize_probe_error-clean unreachable.err

mark_probe_failure-evidence_example :
    get_historical_evidence (codes "7") (codes "gemini") thrice
    ≡ get_historical_evidence (codes "7") (codes "gemini") twice
unfolding mark_probe_success mark_probe_failure
mark_probe_failure-evidence_example =
    mark_probe_failure-evidence none unreachable twice thrice (codes "7") (codes "gemini")
      (λ x h.
        subst
          (λ y.
            (eq_ℤ y.schema_version cache_schema_version ≡ true)
            × (codes "7" ≡ y.auth_index)
            × (codes "gemini" ≡ y.model_group))
          (some_injective h) (refl, refl, refl))
      refl

-- A probe is due when the short window has been reset.
abbrev after_reset : ProbeCheck
after_reset = record {
  auth_index = codes "7";
  provider = codes "antigravity";
  model_group = codes "gemini";
  now = noon + 91 * minute;
  policy = record { ttl = pos 0; reset_stale_after = pos minute };
}

needs_probe-is_due_example :
    needs_probe none after_reset thrice
    ≡ returns (is_due (get_entry (codes "7") (codes "gemini") thrice) after_reset)
needs_probe-is_due_example = needs_probe-is_due after_reset thrice

due_after_reset : needs_probe none after_reset thrice ≡ returns true
unfolding needs_probe mark_probe_success mark_probe_failure
due_after_reset = refl

abbrev cooling : CacheStore
cooling =
    set_cooldown (until 5) (set_cooldown (record (until 1) { auth_index = codes "8" }) nothing)
  where
    until : ℕ → CooldownEntry
    until n = record {
      auth_index = codes "7";
      model_group = [];
      triggered_at = noon;
      cooldown_until = noon + n * minute;
      reason = codes "429";
    }

get_active_cooldowns-lookup_example :
    let (active, t) = get_active_cooldowns (noon + 2 * minute) cooling in
    (lookup (codes "7") active
      ≡ until_of (still_running (noon + 2 * minute) (lookup (codes "7") cooling.cooldowns)))
    × (lookup (codes "7") t.cooldowns
        ≡ still_running (noon + 2 * minute) (lookup (codes "7") cooling.cooldowns))
    × (clear_expired_cooldowns (noon + 2 * minute) cooling ≡ t)
unfolding set_cooldown lookup
get_active_cooldowns-lookup_example =
    get_active_cooldowns-lookup (noon + 2 * minute) (codes "7") cooling (refl, (refl, tt))

-- Files that hold one text, whatever the path.
abbrev holding : Text → Files
holding content = record {
  clean = λ p. p;
  dir = λ p. codes "data";
  is_abs = λ p. false;
  components = λ p. p ∷ [];
  join = λ a b. b;
  lstat = λ p.
      found (record { symlink = false; regular = true; directory = false; size = length content });
  open_stat = λ p. returns true;
  read = λ p. returns content;
}

abbrev one_document : CacheCodec
one_document = record {
  encode = λ d. some (codes "cache");
  decode = λ t. some (document_of thrice);
}

abbrev no_errors : CacheRun
no_errors = record {
  before = holding [];
  mkdir = none;
  chmod_directory = none;
  made = holding [];
  create = none;
  chmod = none;
  write = none;
  sync = none;
  close = none;
  rename = none;
  sync_directory = none;
  after = holding (with_newline (codes "cache"));
}

load-save_atomic_example :
    load_cache no_errors.after one_document none thrice.path
    ≡ record { store = some thrice; error = none }
unfolding save_atomic mark_probe_success mark_probe_failure
load-save_atomic_example =
    load-save_atomic no_errors one_document none thrice
      (record {
        back = λ t h. refl;
        visible = λ t h.
            subst (λ u. is_empty (trim_space (with_newline u)) ≡ false) (some_injective h) refl;
      })
      ((omega arith, (((omega arith, refl), tt), refl)), tt) refl refl refl
