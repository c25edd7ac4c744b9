-- ===== src/Guard/Examples/Restart.antt =====
-- internal/guard/store.go: two accounts, one of them leased to a request, saved and loaded.
use cpa_antigravity_quota_gu.Prelude.{
  ◌+◌, ◌*◌, true, false, not, none, some, [], ◌∷◌, length, trim_space, ◌≡◌, refl, Text, codes,
  text_eq, lookup, if◌then◌else◌,
}
use cpa_antigravity_quota_gu.Guard.Types.{returns, float_one, half_open, second}
use cpa_antigravity_quota_gu.Guard.Records.{Identity, Entry, default_config}
use cpa_antigravity_quota_gu.Guard.Engine.{Engine, initial_engine, entry_key}
use cpa_antigravity_quota_gu.Guard.Document.{
  trim_entry, load_engine, Codec, exported, exported_entries,
}
use cpa_antigravity_quota_gu.Guard.Files.{Files, found}
use cpa_antigravity_quota_gu.Guard.Store.{SaveRun, write_document, save_begin}
use cpa_antigravity_quota_gu.Guard.Store.RoundTrip.{Good}
use cpa_antigravity_quota_gu.Guard.Store.Restart.{IsStorable, Restored, load_engine-write_document}
use cpa_antigravity_quota_gu.Guard.Examples.{
  noon, two_accounts, first_account, second_account, recovering, healthy, first_key, second_key,
}

-- A lease of request r9.
abbrev leased : Entry
leased = record recovering {
  state = half_open;
  half_open_started_at = noon;
  half_open_lease_until = noon + 30 * second;
  half_open_request_id = codes "r9";
}

abbrev leased_accounts : Engine
leased_accounts = record two_accounts { entries = (first_key, leased) ∷ (second_key, healthy) ∷ [] }

abbrev owner_of : Text → Identity
owner_of index = if text_eq index (codes "1") then first_account else second_account

leased-Good : Good owner_of two_accounts.auth_by_id leased
unfolding trim_entry lookup text_eq float_one
leased-Good = record { trimmed = refl; in_range = refl; owned = refl; indexed = refl }

healthy-Good : Good owner_of two_accounts.auth_by_id healthy
unfolding trim_entry lookup text_eq float_one
healthy-Good = record { trimmed = refl; in_range = refl; owned = refl; indexed = refl }

leased_accounts-IsStorable : IsStorable leased_accounts
unfolding lookup entry_key
leased_accounts-IsStorable = record {
  owner = owner_of;
  good = (leased-Good, (healthy-Good, tt));
  filed = (refl, (refl, tt));
  distinct = (refl, (refl, tt));
}

-- Files with one directory that hold one text everywhere else.
abbrev holding : Text → Files
holding content = record {
  clean = λ p. p;
  dir = λ p. codes "data";
  is_abs = λ p. false;
  components = λ p. p ∷ [];
  join = λ a b. b;
  lstat = λ p.
      let directory = text_eq p (codes "data") in
      found (record {
        symlink = false;
        regular = not directory;
        directory = directory;
        size = length content;
      });
  open_stat = λ p. returns true;
  read = λ p. returns content;
}

abbrev no_errors : SaveRun
no_errors = record {
  before = holding [];
  mkdir = none;
  made = holding [];
  create = none;
  chmod = none;
  write = none;
  sync = none;
  close = none;
  rename = none;
  sync_directory = none;
  after = holding (codes "state");
}

-- A codec of one document.
abbrev one_document : Codec
one_document = record {
  encode = λ d. some (codes "state");
  decode = λ t. some (exported (save_begin noon leased_accounts).0);
}

load_engine-write_document_example :
    (e' : Engine) × (load_engine no_errors.after one_document noon
        (codes "state.json")
        (initial_engine default_config)
      ≡ returns e')
    × Restored noon leased_accounts e'
unfolding write_document trim_space float_one save_begin exported_entries
load_engine-write_document_example =
    load_engine-write_document no_errors one_document (codes "state.json") noon noon leased_accounts
      (initial_engine default_config) leased_accounts-IsStorable (λ t h. refl) refl refl
