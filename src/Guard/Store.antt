-- ===== src/Guard/Store.antt =====
-- internal/guard/store.go: validation of the state document, and the steps of Load and Save.
-- Package os, package filepath and encoding/json are parameters: what they answer in one run.
pub mod Equality
pub mod Marks
pub mod Saving
pub mod Sorted
pub mod Loading
pub mod RoundTrip
pub mod Restart
use cpa_antigravity_quota_gu.Prelude.{
  ◌++◌, ℕ, ◌+◌, ◌≡◌, Bool, true, false, ◌&&◌, ◌||◌, not, Option, none, some, List, [], ◌∷◌, ltb,
  leb, ◌==◌, if◌then◌else◌, ℤ, pos, ltb_ℤ, eq_ℤ, u64, Text, codes, text_eq, is_empty, trim_space,
  Dict, lookup, insert, length,
}
use cpa_antigravity_quota_gu.Guard.Types.{
  Time, is_zero, group_valid, state_valid, reason_valid, Float64, nan, pos_inf, neg_inf, finite,
  Error, unsafe_state_path, invalid_state, io_error, not_exist, read_back_mismatch, Fallible,
  returns, fails, ◌>>=◌, ◌>>◌, reject_if, proceed,
}
use cpa_antigravity_quota_gu.Guard.Records.{Config, Identity, Entry, Document}
use cpa_antigravity_quota_gu.Guard.Reset.{not_finite}
use cpa_antigravity_quota_gu.Guard.Engine.{Engine, new_engine, entry_key}
use cpa_antigravity_quota_gu.Guard.Roster.{same_credential}
use cpa_antigravity_quota_gu.Guard.Entries.{sorted_entries}
use cpa_antigravity_quota_gu.Guard.Evidence.{float_negative, float_above_hundred}
use cpa_antigravity_quota_gu.Guard.Breaker.{or_wall}
use cpa_antigravity_quota_gu.Guard.Files.{
  Files, Lstat, clean_path, found, lstat_failed, max_state_file_size, missing, no_path,
  read_state_file, reject_symlink_components,
}
use cpa_antigravity_quota_gu.Guard.Document.{Codec, decoded, schema_version, validate_document}

-- What the operating system answers in one run of `Save`: the file system before the run, after
-- MkdirAll and after the rename, and the error of each call between.
pub record SaveRun : Type 0 where
  pub before : Files
  pub mkdir : Option Error
  pub made : Files
  pub create : Option Error
  pub chmod : Option Error
  pub write : Option Error
  pub sync : Option Error
  pub close : Option Error
  pub rename : Option Error
  pub sync_directory : Option Error
  pub after : Files

abbrev require_directory : Lstat → Fallible (Unit {0})
require_directory missing = fails unsafe_state_path
require_directory lstat_failed = fails unsafe_state_path
require_directory (found i) = reject_if (i.symlink || not i.directory) unsafe_state_path

abbrev allow_target : Lstat → Fallible (Unit {0})
allow_target missing = returns tt
allow_target lstat_failed = fails io_error
allow_target (found i) = reject_if (i.symlink || not i.regular) unsafe_state_path

-- The checks that `Save` and `VerifyStatePathWritable` make of the path.
unfoldable pub check_path : SaveRun → Text → Fallible (Unit {0})
unfolding reject_symlink_components text_eq trim_space
check_path r path = do
  let p = clean_path r.before path
  let directory = r.before.dir p
  reject_if (no_path p) unsafe_state_path
  reject_symlink_components r.before directory
  proceed r.mkdir
  reject_symlink_components r.made directory
  require_directory (r.made.lstat directory)
  allow_target (r.made.lstat p)

-- The document of `Save`, with its generation.
unfoldable pub save_begin : Time → Engine → Document × ℕ
unfolding sorted_entries
save_begin wall e = (
  record {
    schema_version = schema_version;
    updated_at = or_wall wall e.updated;
    entries = sorted_entries e.entries;
  },
  e.generation,
)

abbrev encoded : Option Text → Fallible Text
encoded none = fails io_error
encoded (some t) = returns t

abbrev pub verify_read : Fallible Text → Text → Fallible Text
verify_read (fails e) content = fails e
verify_read (returns back) content =
    if text_eq back content then returns back else fails read_back_mismatch

-- The part of `Save` without the lock, for a document.
unfoldable pub write_document : SaveRun → Codec → Text → Document → Fallible (Unit {0})
unfolding check_path read_state_file validate_document text_eq
write_document r c path d = do
  check_path r path
  content ← encoded (c.encode d)
  reject_if (ltb max_state_file_size (length content)) invalid_state
  proceed r.create
  proceed r.chmod
  proceed r.write
  proceed r.sync
  proceed r.close
  proceed r.rename
  proceed r.sync_directory
  back ← verify_read (read_state_file r.after (clean_path r.before path)) content
  verified ← decoded (c.decode back)
  checked ← validate_document verified
  returns tt

-- `recordPersistError`
unfoldable pub record_persist_error : Engine → Engine
record_persist_error e = record e {
  metrics = record (e.metrics) {
    state_persist_error_total = u64 (e.metrics.state_persist_error_total + 1);
  };
}

-- The end of `Save` on the engine as it is then: other operations may have run since `save_begin`.
unfoldable pub save_finish : ℕ → Fallible (Unit {0}) → Engine → Engine
unfolding record_persist_error
save_finish generation (fails x) e = record_persist_error e
save_finish generation (returns _) e =
    if e.generation == generation then record e { dirty = 0 } else e

-- The bytes that `VerifyStatePathWritable` writes, and the calls that only it makes.
abbrev state_write_probe : Text
state_write_probe = codes "quota-guard-state-write-probe" ++ (10 ∷ [])

pub record ProbeRun : Type 0 where
  pub save : SaveRun
  pub verified : Text
  pub remove : Option Error
  pub sync_again : Option Error

-- `VerifyStatePathWritable`; `verified` is the name that the probe is renamed to.
unfoldable pub verify_state_path_writable : ProbeRun → Text → Fallible (Unit {0})
unfolding check_path text_eq
verify_state_path_writable r path = do
  check_path r.save path
  proceed r.save.create
  proceed r.save.chmod
  proceed r.save.write
  proceed r.save.sync
  proceed r.save.close
  proceed r.save.rename
  proceed r.save.sync_directory
  back ← r.save.after.read r.verified
  reject_if (not (text_eq back state_write_probe)) read_back_mismatch
  proceed r.remove
  proceed r.sync_again
