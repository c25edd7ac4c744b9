-- ===== src/Guard/Document.antt =====
-- internal/guard/store.go: validation of the state document, and Load. encoding/json is a parameter.
use cpa_antigravity_quota_gu.Prelude.{
  ◌+◌, Bool, true, false, ◌&&◌, ◌||◌, not, Option, none, some, List, [], ◌∷◌, ℤ, pos, ltb_ℤ, eq_ℤ,
  u64, Text, text_eq, is_empty, trim_space, Dict, lookup, insert,
}
use cpa_antigravity_quota_gu.Guard.Types.{
  Time, group_valid, state_valid, reason_valid, Float64, invalid_state, not_exist, Fallible,
  returns, fails, ◌>>=◌, ◌>>◌, reject_if,
}
use cpa_antigravity_quota_gu.Guard.Records.{Config, Identity, Entry, Document}
use cpa_antigravity_quota_gu.Guard.Reset.{not_finite}
use cpa_antigravity_quota_gu.Guard.Engine.{Engine, new_engine, entry_key}
use cpa_antigravity_quota_gu.Guard.Evidence.{float_negative, float_above_hundred}
use cpa_antigravity_quota_gu.Guard.Files.{Files, read_state_file}

abbrev pub schema_version : ℤ
schema_version = pos 1

-- `*entry.RemainingPercent` out of range; `mathInvalid` holds of a NaN and of the infinities.
abbrev percent_invalid : Option Float64 → Bool
percent_invalid none = false
percent_invalid (some x) = not_finite x || float_negative x || float_above_hundred x

unfoldable pub trim_entry : Entry → Entry
unfolding trim_space
trim_entry x = record x {
  auth_id = trim_space x.auth_id;
  auth_index = trim_space x.auth_index;
  identity_fingerprint = trim_space x.identity_fingerprint;
  provider = trim_space x.provider;
}

abbrev pub entry_invalid : Entry → Bool
entry_invalid x =
    is_empty x.auth_id
    || is_empty x.auth_index
    || is_empty x.identity_fingerprint
    || not (group_valid x.model_group)
    || not (state_valid x.state)
    || not (reason_valid x.reason)
    || ltb_ℤ x.failure_count (pos 0)
    || percent_invalid x.remaining_percent

abbrev pub identity_of : Entry → Identity
identity_of x = record {
  auth_id = x.auth_id;
  auth_index = x.auth_index;
  identity_fingerprint = x.identity_fingerprint;
  provider = x.provider;
  priority = x.priority;
}

-- `prior == identity`
unfoldable pub identity_eq : Identity → Identity → Bool
unfolding text_eq
identity_eq a b =
    text_eq a.auth_id b.auth_id
    && text_eq a.auth_index b.auth_index
    && text_eq a.identity_fingerprint b.identity_fingerprint
    && text_eq a.provider b.provider
    && eq_ℤ a.priority b.priority

-- The three maps that `validateDocument` builds.
pub record Checked : Type 0 where
  pub entries : Dict Entry
  pub auth_by_id : Dict Text
  pub identity_by_index : Dict Identity

abbrev pub present : Option Entry → Bool
present none = false
present (some _) = true

abbrev pub other_identity : Option Identity → Identity → Bool
other_identity none i = false
other_identity (some prior) i = not (identity_eq prior i)

abbrev pub other_index : Option Text → Text → Bool
other_index none index = false
other_index (some prior) index = not (text_eq prior index)

-- What an entry adds to the maps.
abbrev pub with_entry : Entry → Checked → Checked
with_entry x s = record {
  entries = insert (entry_key x.auth_index x.model_group) x s.entries;
  auth_by_id = insert x.auth_id x.auth_index s.auth_by_id;
  identity_by_index = insert x.auth_index (identity_of x) s.identity_by_index;
}

-- One round of the loop after the fields are trimmed, and the whole of it.
unfoldable pub check_trimmed : Entry → Checked → Fallible Checked
unfolding entry_key lookup insert identity_eq text_eq
check_trimmed x s = do
  reject_if (entry_invalid x) invalid_state
  reject_if (present (lookup (entry_key x.auth_index x.model_group) s.entries)) invalid_state
  reject_if (other_identity (lookup x.auth_index s.identity_by_index) (identity_of x)) invalid_state
  reject_if (other_index (lookup x.auth_id s.auth_by_id) x.auth_index) invalid_state
  returns (with_entry x s)

unfoldable pub check_entry : Entry → Checked → Fallible Checked
unfolding trim_entry check_trimmed
check_entry raw s = check_trimmed (trim_entry raw) s

unfoldable pub check_entries : List Entry → Checked → Fallible Checked
unfolding check_entry
check_entries [] s = returns s
check_entries (x ∷ xs) s = check_entry x s >>= λ s'. check_entries xs s'

-- `validateDocument`
unfoldable pub validate_document : Document → Fallible (Dict Entry × Dict Text)
unfolding check_entries
validate_document d = do
  reject_if (not (eq_ℤ d.schema_version schema_version)) invalid_state
  s ← check_entries d.entries (record { entries = []; auth_by_id = []; identity_by_index = [] })
  returns (s.entries, s.auth_by_id)

-- What encoding/json writes of a document: all of it but the field halfOpenRequestID of an entry,
-- which is not exported.
abbrev pub exported_entry : Entry → Entry
exported_entry x = record x { half_open_request_id = [] }

unfoldable pub exported_entries : List Entry → List Entry
exported_entries [] = []
exported_entries (x ∷ xs) = exported_entry x ∷ exported_entries xs

abbrev pub exported : Document → Document
exported d = record d { entries = exported_entries d.entries }

-- The codec of encoding/json with the settings of `Save` and `decodeDocument`.
pub record Codec : Type 0 where
  pub encode : Document → Option Text
  pub decode : Text → Option Document

abbrev pub decoded : Option Document → Fallible Document
decoded none = fails invalid_state
decoded (some d) = returns d

unfoldable pub load_document : Time → Document → Engine → Fallible Engine
unfolding validate_document
load_document wall d e = do
  (entries, auth_by_id) ← validate_document d
  returns (record e {
    entries = entries;
    auth_by_id = auth_by_id;
    updated = d.updated_at;
    dirty = 0;
    generation = u64 (e.generation + 1);
  })

-- A missing file leaves the engine as it is.
abbrev load_content : Codec → Time → Fallible Text → Engine → Fallible Engine
load_content c wall (fails not_exist) e = returns e
load_content c wall (fails x) e = fails x
load_content c wall (returns content) e = decoded (c.decode content) >>= λ d. load_document wall d e

-- `Engine.Load`
unfoldable pub load_engine : Files → Codec → Time → Text → Engine → Fallible Engine
unfolding read_state_file load_document
load_engine f c wall path e = load_content c wall (read_state_file f path) e

-- `Load`
unfoldable pub load_new : Files → Codec → Time → Text → Config → Fallible Engine
unfolding load_engine new_engine
load_new f c wall path config = do e ← new_engine config; load_engine f c wall path e
