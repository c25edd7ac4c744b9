-- ===== src/Guard/Store/Restart.antt =====
-- internal/guard/store.go: the entries that a save writes are those that a later load reads.
use cpa_antigravity_quota_gu.Prelude.{
  subst, ltb, length, ap, inl, inr, Bool-cases, Option-cases, text_eq, text_eq_iff, ◌≡◌, refl, ◌∙◌,
  ◌+◌, u64, Option, none, some, List, [], ◌∷◌, Text, Dict, lookup, AllEntries, Distinct, All,
}
use cpa_antigravity_quota_gu.Guard.Types.{
  Time, Fallible, returns, fails, ◌>>◌, ◌>>=◌, fails_ne_returns, reject_if, proceed, invalid_state,
}
use cpa_antigravity_quota_gu.Guard.Records.{Identity, Entry, Document}
use cpa_antigravity_quota_gu.Guard.Engine.{Engine}
use cpa_antigravity_quota_gu.Guard.Breaker.{or_wall}
use cpa_antigravity_quota_gu.Guard.Entries.{sorted_entries}
use cpa_antigravity_quota_gu.Guard.Document.{
  trim_entry, Checked, Codec, validate_document, load_document, load_engine, exported_entry,
  exported_entries, exported,
}
use cpa_antigravity_quota_gu.Guard.Files.{read_state_file, clean_path, max_state_file_size}
use cpa_antigravity_quota_gu.Guard.Store.{
  SaveRun, check_path, verify_read, write_document, save_begin,
}
use cpa_antigravity_quota_gu.Guard.Store.Sorted.{
  key_of, find_key, All-sorted_entries, find_key-sorted_entries, Unlike, Unique,
}
use cpa_antigravity_quota_gu.Guard.Store.RoundTrip.{Good, Agrees, New, over, check_entries-Good}

-- An engine that is fit for saving: its entries are trimmed and in range, each stands once under
-- its own key, the entries of an index are of one account, and each id leads to its index.
pub record IsStorable (e : Engine) : Type 0 where
  pub owner : Text → Identity
  pub good : AllEntries (λ k x. Good owner e.auth_by_id x) e.entries
  pub filed : AllEntries (λ k x. k ≡ key_of x) e.entries
  pub distinct : Distinct e.entries

abbrev nothing_checked : Checked
nothing_checked = record { entries = []; auth_by_id = []; identity_by_index = [] }

-- Nothing stands in empty maps.
All-New :
    (owner : Text → Identity) (auth : Dict Text) (xs : List Entry)
    → All (New owner auth nothing_checked) xs
unfolding lookup
All-New owner auth [] = tt
All-New owner auth (x ∷ xs) = (refl, All-New owner auth xs)

nothing-Agrees : (owner : Text → Identity) (auth : Dict Text) → Agrees owner auth nothing_checked
unfolding lookup
nothing-Agrees owner auth = record { identities = λ j i h. cc; ids = λ d j h. cc }

over_nothing :
    (owner : Text → Identity) (auth : Dict Text) (o : Option Entry) (k : Text)
    → over owner auth o (lookup k []) ≡ o
unfolding lookup
over_nothing owner auth none k = refl
over_nothing owner auth (some x) k = refl

-- What encoding/json keeps of an entry that may be there.
abbrev pub kept_entry : Option Entry → Option Entry
kept_entry none = none
kept_entry (some x) = some (exported_entry x)

exported_entry-Good :
    (owner : Text → Identity) (auth : Dict Text) (x : Entry)
    → Good owner auth x
    → Good owner auth (exported_entry x)
unfolding trim_entry
exported_entry-Good owner auth x g = record {
  trimmed = ap exported_entry g.trimmed;
  in_range = g.in_range;
  owned = g.owned;
  indexed = g.indexed;
}

exported_entries-Good :
    (owner : Text → Identity) (auth : Dict Text) (xs : List Entry)
    → All (Good owner auth) xs
    → All (Good owner auth) (exported_entries xs)
unfolding exported_entries
exported_entries-Good owner auth [] h = tt
exported_entries-Good owner auth (x ∷ xs) (h, hs) =
    (exported_entry-Good owner auth x h, exported_entries-Good owner auth xs hs)

exported_entries-Unlike :
    (x : Entry) (xs : List Entry)
    → All (Unlike x) xs
    → All (Unlike (exported_entry x)) (exported_entries xs)
unfolding exported_entries
exported_entries-Unlike x [] h = tt
exported_entries-Unlike x (y ∷ ys) (h, hs) = (h, exported_entries-Unlike x ys hs)

exported_entries-Unique : (xs : List Entry) → Unique xs → Unique (exported_entries xs)
unfolding exported_entries
exported_entries-Unique [] h = tt
exported_entries-Unique (x ∷ xs) (h, hs) =
    (exported_entries-Unlike x xs h, exported_entries-Unique xs hs)

find_key-exported_entries :
    (k : Text) (xs : List Entry) → find_key k (exported_entries xs) ≡ kept_entry (find_key k xs)
unfolding exported_entries find_key
find_key-exported_entries k [] = refl
find_key-exported_entries k (x ∷ xs) = elim (Bool-cases (text_eq (key_of x) k)) [
  | inl e ↦ rw e refl
  | inr e ↦ rw e (find_key-exported_entries k xs)
]

-- What the load of a document leaves of the engine that was saved.
pub record Restored (wall : Time) (e e' : Engine) : Type 0 where
  pub same : (k : Text) → lookup k e'.entries ≡ kept_entry (lookup k e.entries)
  pub clean : e'.dirty ≡ 0
  pub stamped : e'.updated ≡ or_wall wall e.updated

load_exported :
    (wall later : Time) (e f : Engine)
    → IsStorable e
    → (e' : Engine) × (load_document later (exported (save_begin wall e).0) f ≡ returns e')
      × Restored wall e e'
unfolding save_begin load_document validate_document
load_exported wall later e f h =
    let (sorted, unique) = find_key-sorted_entries e.entries h.filed h.distinct in
    let xs = sorted_entries e.entries in
    let (s, run, same) =
      check_entries-Good h.owner e.auth_by_id (exported_entries xs) nothing_checked
        (exported_entries-Good h.owner e.auth_by_id xs
          (All-sorted_entries (Good h.owner e.auth_by_id) e.entries h.good))
        (exported_entries-Unique xs unique) (nothing-Agrees h.owner e.auth_by_id)
        (All-New h.owner e.auth_by_id (exported_entries xs)) in
    (
      record f {
        entries = s.entries;
        auth_by_id = s.auth_by_id;
        updated = or_wall wall e.updated;
        dirty = 0;
        generation = u64 (f.generation + 1);
      },
      rw run refl,
      record {
        same = λ k.
            same k
            ∙ over_nothing h.owner e.auth_by_id (find_key k (exported_entries xs)) k
            ∙ find_key-exported_entries k xs
            ∙ ap kept_entry (sorted k);
        clean = refl;
        stamped = refl;
      },
    )

-- The decoder reads what the encoder writes of a document, but for the fields that it leaves out.
abbrev pub ReadsBack : Codec → Document → Type 0
ReadsBack c d = (t : Text) → c.encode d ≡ some t → c.decode t ≡ some (exported d)

then_returns :
    (m k : Fallible (Unit {0})) (P : Type 0) → (k ≡ returns tt → P) → (m >> k) ≡ returns tt → P
then_returns (fails x) k P f h = absurd (fails_ne_returns h)
then_returns (returns _) k P f h = f h

-- The text that a successful save has read back is the one that it wrote.
abbrev Written : SaveRun → Codec → Text → Document → Type 0
Written r c path d =
    (t : Text) × (c.encode d ≡ some t)
    × (read_state_file r.after (clean_path r.before path) ≡ returns t)

verify_read-same :
    (b : Fallible Text) (t : Text) (k : Text → Fallible (Unit {0}))
    → (verify_read b t >>= k) ≡ returns tt
    → b ≡ returns t
verify_read-same (fails x) t k h = absurd (fails_ne_returns h)
verify_read-same (returns back) t k h = elim (Bool-cases (text_eq back t)) [
  | inl e ↦ ap (λ u. returns u) ((text_eq_iff back t).0 e)
  | inr e ↦ absurd (fails_ne_returns (rw e at h))
]

-- Eight calls that only return an error, before another.
eight_calls :
    (a b c d e f g h k : Fallible (Unit {0}))
    → (do a; b; c; d; e; f; g; h; k) ≡ returns tt
    → k ≡ returns tt
eight_calls (returns _) (returns _) (returns _) (returns _) (returns _) (returns _) (returns _)
      (returns _) k run =
    run
eight_calls (fails x) b c d e f g h k run = absurd (fails_ne_returns run)
eight_calls (returns _) (fails x) c d e f g h k run = absurd (fails_ne_returns run)
eight_calls (returns _) (returns _) (fails x) d e f g h k run = absurd (fails_ne_returns run)
eight_calls (returns _) (returns _) (returns _) (fails x) e f g h k run =
    absurd (fails_ne_returns run)
eight_calls (returns _) (returns _) (returns _) (returns _) (fails x) f g h k run =
    absurd (fails_ne_returns run)
eight_calls (returns _) (returns _) (returns _) (returns _) (returns _) (fails x) g h k run =
    absurd (fails_ne_returns run)
eight_calls (returns _) (returns _) (returns _) (returns _) (returns _) (returns _) (fails x) h k
      run =
    absurd (fails_ne_returns run)
eight_calls (returns _) (returns _) (returns _) (returns _) (returns _) (returns _) (returns _)
      (fails x) k run =
    absurd (fails_ne_returns run)

write_document-Written :
    (r : SaveRun) (c : Codec) (path : Text) (d : Document)
    → write_document r c path d ≡ returns tt
    → Written r c path d
unfolding write_document
write_document-Written r c path d h = elim (Option-cases (c.encode d)) [
  | inl e ↦
      then_returns (check_path r path) _ (Written r c path d) (λ k. absurd (fails_ne_returns k))
        (rw e at h)
  | inr (t, e) ↦
      then_returns (check_path r path) _ (Written r c path d)
        (λ k. (
          t,
          e,
          verify_read-same (read_state_file r.after (clean_path r.before path)) t _ (
              eight_calls (reject_if (ltb max_state_file_size (length t)) invalid_state)
                (proceed r.create) (proceed r.chmod) (proceed r.write) (proceed r.sync)
                (proceed r.close) (proceed r.rename) (proceed r.sync_directory) _ k),
        ))
        (rw e at h)
]

-- Let the entries of an engine be trimmed and in range, each once under its own key, those of one
-- index of one account, and let the id of each lead to its index. Let the codec read back what it
-- writes of its document, but for the fields that it leaves out. Then, once a save at a clean path
-- has returned no error, every engine that loads the files that it left accepts the document, and
-- has the saved engine's entry under each key, all but the id of the request that holds a half-open
-- lease, which is not written; it has the time stamp of the document, and nothing to save.
pub load_engine-write_document :
    (r : SaveRun) (c : Codec) (path : Text) (wall later : Time) (e f : Engine)
    → IsStorable e
    → ReadsBack c (save_begin wall e).0
    → clean_path r.before path ≡ path
    → write_document r c path (save_begin wall e).0 ≡ returns tt
    → (e' : Engine) × (load_engine r.after c later path f ≡ returns e') × Restored wall e e'
unfolding load_engine
load_engine-write_document r c path wall later e f h reads clean saved =
    let d = (save_begin wall e).0 in
    let (t, encoding, back) = write_document-Written r c path d saved in
    let (e', run, restored) = load_exported wall later e f h in
    let read : read_state_file r.after path ≡ returns t =
      subst (λ p. read_state_file r.after p ≡ returns t) clean back in
    (e', rw (read, reads t encoding) run, restored)
