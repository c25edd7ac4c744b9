-- ===== src/Cache/Disk.antt =====
-- internal/state/store.go: the cache on disk. Packages os, path/filepath and encoding/json are parameters.
use cpa_antigravity_quota_gu.Prelude.{
  ℕ, Bool, true, false, ◌||◌, not, Option, none, some, [], ◌∷◌, ◌++◌, ltb, if◌then◌else◌, pos, eq_ℤ,
  Text, codes, text_eq, is_empty, trim_space, Dict, length,
}
use cpa_antigravity_quota_gu.Guard.Types.{
  Error, unsafe_state_path, invalid_state, io_error, not_exist, read_back_mismatch, Fallible,
  returns, fails, ◌>>=◌, ◌>>◌, reject_if, proceed,
}
use cpa_antigravity_quota_gu.Guard.Files.{
  Files, Lstat, missing, lstat_failed, found, clean_path, no_path, reject_components,
}
use cpa_antigravity_quota_gu.Cache.Normalize.{History, normalize_sample_history}
use cpa_antigravity_quota_gu.Cache.Records.{CacheEntry, CacheStore, CacheDocument}
use cpa_antigravity_quota_gu.Cache.Marks.{cache_schema_version}

abbrev pub max_cache_file_size : ℕ
max_cache_file_size = 16777216

-- `rejectCacheSymlinkComponents`; its loop does what that of the guard's state file does.
unfoldable pub reject_cache_symlink_components : Files → Text → Fallible (Unit {0})
unfolding reject_components trim_space text_eq
reject_cache_symlink_components f path =
    let p = clean_path f path in
    if no_path p
    then returns tt
    else if f.is_abs p
    then returns tt
    else reject_components f (codes ".") (f.components p)

abbrev require_cache_file : Lstat → Fallible (Unit {0})
require_cache_file missing = fails not_exist
require_cache_file lstat_failed = fails io_error
require_cache_file (found i) =
    reject_if (i.symlink || not i.regular || ltb max_cache_file_size i.size) unsafe_state_path

abbrev opened_same : Fallible Bool → Fallible (Unit {0})
opened_same (returns true) = returns tt
opened_same (returns false) = fails unsafe_state_path
opened_same (fails not_exist) = fails not_exist
opened_same (fails e) = fails unsafe_state_path

-- `readCacheFile`
unfoldable pub read_cache_file : Files → Text → Fallible Text
unfolding reject_cache_symlink_components
read_cache_file f path = do
  reject_cache_symlink_components f path
  require_cache_file (f.lstat path)
  opened_same (f.open_stat path)
  raw ← f.read path
  reject_if (ltb max_cache_file_size (length raw)) invalid_state
  returns raw

-- encoding/json: MarshalIndent, and the strict decoder up to the end of the input.
pub record CacheCodec : Type 0 where
  pub encode : CacheDocument → Option Text
  pub decode : Text → Option CacheDocument

abbrev known_version : CacheDocument → Bool
known_version d = eq_ℤ d.schema_version (pos 0) || eq_ℤ d.schema_version cache_schema_version

abbrev checked_document : Option CacheDocument → Fallible CacheDocument
checked_document none = fails invalid_state
checked_document (some d) = if known_version d then returns d else fails invalid_state

-- `decodeCacheDocument`
abbrev pub decode_cache_document : CacheCodec → Text → Fallible CacheDocument
decode_cache_document c raw = checked_document (c.decode raw)

-- The histories of the entries are normalized as they are loaded.
abbrev pub normalized_entry : CacheEntry → CacheEntry
normalized_entry x = with_history (normalize_sample_history x.samples x.learning_baseline_sequence)
  where
    with_history : History → CacheEntry
    with_history h = record x { samples = h.samples; learning_baseline_sequence = h.baseline }

unfoldable pub normalized_entries : Dict CacheEntry → Dict CacheEntry
unfolding normalize_sample_history
normalized_entries [] = []
normalized_entries ((k, x) ∷ m) = (k, normalized_entry x) ∷ normalized_entries m

abbrev pub empty_store : Text → CacheStore
empty_store path = record {
  path = path;
  entries = [];
  latest_audit = [];
  latest_result = [];
  run_history = [];
  schedule_config = none;
  dynamic_config = none;
  cooldowns = [];
}

unfoldable pub store_of : Text → CacheDocument → CacheStore
unfolding normalized_entries
store_of path d = record {
  path = path;
  entries = normalized_entries d.entries;
  latest_audit = d.latest_audit;
  latest_result = d.latest_result;
  run_history = d.run_history;
  schedule_config = d.schedule_config;
  dynamic_config = d.dynamic_config;
  cooldowns = d.cooldowns;
}

-- What `Load` returns: a corrupt file gives an empty store and an error.
pub record LoadResult : Type 0 where
  pub store : Option CacheStore
  pub error : Option Error

abbrev pub loaded : CacheStore → LoadResult
loaded s = record { store = some s; error = none }

abbrev pub refused : Error → LoadResult
refused e = record { store = none; error = some e }

abbrev pub load_decoded : Text → Fallible CacheDocument → LoadResult
load_decoded path (fails e) = record { store = some (empty_store path); error = some invalid_state }
load_decoded path (returns d) = loaded (store_of path d)

abbrev pub load_bytes : CacheCodec → Text → Fallible Text → LoadResult
load_bytes c path (fails not_exist) = loaded (empty_store path)
load_bytes c path (fails e) = refused e
load_bytes c path (returns raw) =
    if is_empty (trim_space raw)
    then loaded (empty_store path)
    else load_decoded path (decode_cache_document c raw)

-- `Load`
abbrev pub load_path : Files → CacheCodec → Text → LoadResult
load_path f c path =
    if no_path path then refused unsafe_state_path else load_bytes c path (read_cache_file f path)

unfoldable pub load_cache : Files → CacheCodec → Option Error → Text → LoadResult
unfolding trim_space text_eq read_cache_file store_of
load_cache f c (some e) path = refused e
load_cache f c none path = load_path f c (clean_path f path)

-- What the operating system answers in one run of `SaveAtomic`.
pub record CacheRun : Type 0 where
  pub before : Files
  pub mkdir : Option Error
  pub chmod_directory : Option Error
  pub made : Files
  pub create : Option Error
  pub chmod : Option Error
  pub write : Option Error
  pub sync : Option Error
  pub close : Option Error
  pub rename : Option Error
  pub sync_directory : Option Error
  pub after : Files

abbrev allow_cache_target : Lstat → Fallible (Unit {0})
allow_cache_target missing = returns tt
allow_cache_target lstat_failed = fails io_error
allow_cache_target (found i) = reject_if (i.symlink || not i.regular) unsafe_state_path

abbrev pub document_of : CacheStore → CacheDocument
document_of s = record {
  schema_version = cache_schema_version;
  entries = s.entries;
  latest_audit = s.latest_audit;
  latest_result = s.latest_result;
  run_history = s.run_history;
  schedule_config = s.schedule_config;
  dynamic_config = s.dynamic_config;
  cooldowns = s.cooldowns;
}

abbrev pub encoded_cache : Option Text → Fallible Text
encoded_cache none = fails io_error
encoded_cache (some t) = returns t

-- The part of `SaveAtomic` from the size of the content to the rename.
unfoldable pub write_cache : CacheRun → Text → Text → Fallible (Unit {0})
unfolding reject_cache_symlink_components
write_cache r path content = do
  let directory = r.before.dir path
  reject_if (ltb max_cache_file_size (length content)) invalid_state
  reject_cache_symlink_components r.before directory
  proceed r.mkdir
  proceed r.chmod_directory
  reject_cache_symlink_components r.made directory
  allow_cache_target (r.made.lstat path)
  proceed r.create
  proceed r.chmod
  proceed r.write
  proceed r.sync
  proceed r.close
  proceed r.rename
  proceed r.sync_directory

-- The part after the rename: what is read back.
unfoldable pub verify_cache : CacheCodec → Text → Fallible Text → Fallible (Unit {0})
unfolding text_eq
verify_cache c content (fails e) = fails e
verify_cache c content (returns back) = do
  reject_if (not (text_eq back content)) read_back_mismatch
  verified ← decode_cache_document c back
  returns tt

abbrev pub with_newline : Text → Text
with_newline text = text ++ (10 ∷ [])

-- `SaveAtomic`
unfoldable pub save_atomic : CacheRun → CacheCodec → Option Error → CacheStore → Fallible (Unit {0})
unfolding write_cache read_cache_file verify_cache
save_atomic r c ctx s = do
  proceed ctx
  text ← encoded_cache (c.encode (document_of s))
  write_cache r s.path (with_newline text)
  verify_cache c (with_newline text) (read_cache_file r.after s.path)
