-- ===== src/Guard/Files.antt =====
-- internal/guard/store.go: paths and files. Package os and package filepath are parameters.
use cpa_antigravity_quota_gu.Prelude.{
  ℕ, Bool, true, false, ◌||◌, not, List, [], ◌∷◌, ltb, if◌then◌else◌, Text, codes, text_eq,
  is_empty, trim_space, length,
}
use cpa_antigravity_quota_gu.Guard.Types.{
  unsafe_state_path, invalid_state, io_error, not_exist, Fallible, returns, fails, ◌>>=◌, ◌>>◌,
  reject_if,
}

-- What `os.Lstat` says of a path.
pub record Info : Type 0 where
  pub symlink : Bool
  pub regular : Bool
  pub directory : Bool
  pub size : ℕ

pub data Lstat : Type 0 where
  missing lstat_failed : Lstat
  found : Info → Lstat

-- The file system at one moment, and package filepath. `open_stat` opens a file and says whether
-- it is regular and the one that Lstat saw; `read` reads at most one byte more than the limit.
pub record Files : Type 0 where
  pub clean : Text → Text
  pub dir : Text → Text
  pub is_abs : Text → Bool
  pub components : Text → List Text
  pub join : Text → Text → Text
  pub lstat : Text → Lstat
  pub open_stat : Text → Fallible Bool
  pub read : Text → Fallible Text

abbrev pub max_state_file_size : ℕ
max_state_file_size = 16777216

abbrev is_dot : Text → Bool
is_dot s = text_eq s (codes ".")

-- One component of a path: what Lstat says of the path up to it.
abbrev reject_lstat : Lstat → Fallible (Unit {0})
reject_lstat missing = returns tt
reject_lstat lstat_failed = fails io_error
reject_lstat (found i) = reject_if i.symlink unsafe_state_path

unfoldable pub reject_components : Files → Text → List Text → Fallible (Unit {0})
unfolding text_eq
reject_components f current [] = returns tt
reject_components f current (c ∷ cs) =
    let next = f.join current c in
    let skip = reject_components f current cs in
    let rest = reject_components f next cs in
    if is_empty c || is_dot c
    then skip
    else if text_eq c (codes "..")
    then fails unsafe_state_path
    else (reject_lstat (f.lstat next) >> rest)

-- `rejectSymlinkComponents`
unfoldable pub reject_symlink_components : Files → Text → Fallible (Unit {0})
unfolding reject_components
reject_symlink_components f path =
    let p = f.clean path in
    if f.is_abs p then returns tt else reject_components f (codes ".") (f.components p)

abbrev pub clean_path : Files → Text → Text
clean_path f path = f.clean (trim_space path)

abbrev pub no_path : Text → Bool
no_path p = is_empty p || is_dot p

abbrev require_state_file : Lstat → Fallible (Unit {0})
require_state_file missing = fails not_exist
require_state_file lstat_failed = fails io_error
require_state_file (found i) = do
  reject_if (i.symlink || not i.regular) unsafe_state_path
  reject_if (ltb max_state_file_size i.size) invalid_state

abbrev require_same_file : Fallible Bool → Fallible (Unit {0})
require_same_file (returns true) = returns tt
require_same_file (returns false) = fails unsafe_state_path
require_same_file (fails e) = fails e

-- `readStateFile`
unfoldable pub read_state_file : Files → Text → Fallible Text
unfolding reject_symlink_components text_eq trim_space
read_state_file f path = do
  let p = clean_path f path
  reject_if (no_path p) unsafe_state_path
  reject_symlink_components f p
  require_state_file (f.lstat p)
  require_same_file (f.open_stat p)
  content ← f.read p
  reject_if (ltb max_state_file_size (length content)) invalid_state
  returns content
