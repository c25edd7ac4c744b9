-- ===== src/Guard/Store/Loading.antt =====
-- internal/guard/store.go: an engine that loads a document of valid entries is valid.
use cpa_antigravity_quota_gu.Prelude.{
  ◌≡◌, refl, subst, Bool, true, false, ◌⊎◌, inl, inr, List, [], ◌∷◌, Text, Dict, AllEntries,
  AllEntries-insert, lookup, not, eq_ℤ, u64, ◌+◌, Distinct, Distinct-insert, All,
}
use cpa_antigravity_quota_gu.Guard.Types.{
  Time, State, uninitialized, closed, opened, half_open, other_state, Fallible, returns, fails,
  ◌>>=◌, ◌>>◌, reject_if, invalid_state, returns_injective, fails_ne_returns,
}
use cpa_antigravity_quota_gu.Guard.Records.{Entry, Document}
use cpa_antigravity_quota_gu.Guard.Engine.{Engine, entry_key}
use cpa_antigravity_quota_gu.Guard.Entries.{sorted_entries}
use cpa_antigravity_quota_gu.Guard.Document.{
  trim_entry, Checked, entry_invalid, present, other_identity, other_index, identity_of, with_entry,
  check_trimmed, check_entry, check_entries, validate_document, load_document, exported_entries,
  exported, schema_version,
}
use cpa_antigravity_quota_gu.Guard.Store.{save_begin}
use cpa_antigravity_quota_gu.Guard.Store.Sorted.{All-sorted_entries}
use cpa_antigravity_quota_gu.Guard.Invariant.{NoLease, Idle, Phase, IsValid, Filed, IsValidEngine}

-- The texts of an entry may change, and its request id may be lost.
module _ (x : Entry) (id index print provider request : Text)
    (kept : (request ≡ x.half_open_request_id) ⊎ (request ≡ [])) where
  abbrev relabelled : Entry
  relabelled = record x {
    auth_id = id;
    auth_index = index;
    identity_fingerprint = print;
    provider = provider;
    half_open_request_id = request;
  }

  lost : x.half_open_request_id ≡ [] → request ≡ []
  lost h = elim kept [ inl same ↦ cc (same, h) | inr gone ↦ gone ]

  relabelled-NoLease : NoLease x → NoLease relabelled
  relabelled-NoLease h = record {
    not_started = h.not_started;
    not_leased = h.not_leased;
    no_holder = lost h.no_holder;
  }

  relabelled-Idle : Idle x → Idle relabelled
  relabelled-Idle h = record {
    free = relabelled-NoLease h.free;
    no_cause = h.no_cause;
    never_opened = h.never_opened;
    no_recovery = h.no_recovery;
    no_reset = h.no_reset;
  }

  relabelled-Phase : (t : State) → Phase t x → Phase t relabelled
  relabelled-Phase uninitialized h = relabelled-Idle h
  relabelled-Phase closed h = relabelled-Idle h
  relabelled-Phase opened h = record {
    free = relabelled-NoLease h.free;
    cause = h.cause;
    recovers = h.recovers;
  }
  relabelled-Phase half_open (inl h) =
      inl (record { free = relabelled-NoLease h.free; manual = h.manual })
  relabelled-Phase half_open (inr h) = inr h
  relabelled-Phase (other_state _) h = h

  relabelled-IsValid : IsValid x → IsValid relabelled
  relabelled-IsValid h = record {
    phase = relabelled-Phase x.state h.phase;
    grouped = h.grouped;
    ordered = h.ordered;
    percent = h.percent;
  }

trim_entry-IsValid : (x : Entry) → IsValid x → IsValid (trim_entry x)
unfolding trim_entry
trim_entry-IsValid x h = relabelled-IsValid x _ _ _ _ x.half_open_request_id (inl refl) h

exported_entries-IsValid : (xs : List Entry) → All IsValid xs → All IsValid (exported_entries xs)
unfolding exported_entries
exported_entries-IsValid [] h = tt
exported_entries-IsValid (x ∷ xs) (h, hs) = (
  relabelled-IsValid x x.auth_id x.auth_index x.identity_fingerprint x.provider [] (inr refl) h,
  exported_entries-IsValid xs hs,
)

-- What a chain of four checks returns.
four_checks :
    (a b c d : Bool) (s t : Checked)
    → (do
      reject_if a invalid_state
      reject_if b invalid_state
      reject_if c invalid_state
      reject_if d invalid_state
      returns s)
      ≡ returns t
    → s ≡ t
four_checks true b c d s t h = absurd (fails_ne_returns h)
four_checks false true c d s t h = absurd (fails_ne_returns h)
four_checks false false true d s t h = absurd (fails_ne_returns h)
four_checks false false false true s t h = absurd (fails_ne_returns h)
four_checks false false false false s t h = returns_injective h

check_trimmed-with_entry :
    (x : Entry) (s t : Checked) → check_trimmed x s ≡ returns t → with_entry x s ≡ t
unfolding check_trimmed
check_trimmed-with_entry x s t h =
    four_checks (entry_invalid x)
      (present (lookup (entry_key x.auth_index x.model_group) s.entries))
      (other_identity (lookup x.auth_index s.identity_by_index) (identity_of x))
      (other_index (lookup x.auth_id s.auth_by_id) x.auth_index) (with_entry x s) t h

-- The map that the checks build.
abbrev FiledMap : Checked → Type 0
FiledMap s = AllEntries Filed s.entries × Distinct s.entries

with_entry-FiledMap : (x : Entry) (s : Checked) → IsValid x → FiledMap s → FiledMap (with_entry x s)
with_entry-FiledMap x s v (f, d) = (
  AllEntries-insert Filed (entry_key x.auth_index x.model_group) x s.entries (v, refl) f,
  Distinct-insert (entry_key x.auth_index x.model_group) x s.entries d,
)

check_entries-FiledMap :
    (xs : List Entry) (s t : Checked)
    → All IsValid xs
    → FiledMap s
    → check_entries xs s ≡ returns t
    → FiledMap t
unfolding check_entries check_entry
check_entries-FiledMap [] s t v f h = subst FiledMap (returns_injective h) f
check_entries-FiledMap (x ∷ xs) s t (v, vs) f h =
    go (λ u. check_entries-FiledMap xs u t vs) (check_trimmed (trim_entry x) s) refl h
  where
    go :
        ((u : Checked) → FiledMap u → check_entries xs u ≡ returns t → FiledMap t)
        → (o : Fallible Checked) → check_trimmed (trim_entry x) s ≡ o
        → (o >>= λ u. check_entries xs u) ≡ returns t
        → FiledMap t
    go rest (fails e) same k = absurd (fails_ne_returns k)
    go rest (returns u) same k =
        rest u
          (subst FiledMap (check_trimmed-with_entry (trim_entry x) s u same)
            (with_entry-FiledMap (trim_entry x) s (trim_entry-IsValid x v) f))
          k

-- The engine that takes the maps of the checks.
abbrev taken_over : Document → Engine → Checked → Engine
taken_over d e s = record e {
  entries = s.entries;
  auth_by_id = s.auth_by_id;
  updated = d.updated_at;
  dirty = 0;
  generation = u64 (e.generation + 1);
}

-- What `validateDocument` returns of the maps.
abbrev checked_maps : Bool → Fallible Checked → Fallible (Dict Entry × Dict Text)
checked_maps bad m = do reject_if bad invalid_state; s ← m; returns (s.entries, s.auth_by_id)

bind-taken_over :
    (bad : Bool) (m : Fallible Checked) (d : Document) (e e' : Engine)
    → (checked_maps bad m >>= λ r. returns (record e {
      entries = r.0;
      auth_by_id = r.1;
      updated = d.updated_at;
      dirty = 0;
      generation = u64 (e.generation + 1);
    }))
      ≡ returns e'
    → (s : Checked) × (m ≡ returns s) × (taken_over d e s ≡ e')
bind-taken_over true m d e e' h = absurd (fails_ne_returns h)
bind-taken_over false (fails x) d e e' h = absurd (fails_ne_returns h)
bind-taken_over false (returns s) d e e' h = (s, refl, returns_injective h)

abbrev nothing_checked : Checked
nothing_checked = record { entries = []; auth_by_id = []; identity_by_index = [] }

-- An engine that loads a document of valid entries is valid.
pub load_document-IsValidEngine :
    (wall : Time) (d : Document) (e e' : Engine)
    → All IsValid d.entries
    → IsValidEngine e
    → load_document wall d e ≡ returns e'
    → IsValidEngine e'
unfolding load_document validate_document
load_document-IsValidEngine wall d e e' v valid h =
    let (s, run, same) =
      bind-taken_over (not (eq_ℤ d.schema_version schema_version))
        (check_entries d.entries nothing_checked) d e e' h in
    let (filed, distinct) = check_entries-FiledMap d.entries nothing_checked s v (tt, tt) run in
    subst IsValidEngine same
      (record { configured = valid.configured; filed = filed; distinct = distinct })

AllEntries-IsValid : (m : Dict Entry) → AllEntries Filed m → AllEntries (λ k x. IsValid x) m
AllEntries-IsValid [] h = tt
AllEntries-IsValid ((k, x) ∷ m) (h, hs) = (h.0, AllEntries-IsValid m hs)

-- The document that a save of a valid engine takes, as encoding/json keeps it, is of valid entries.
pub exported-IsValid :
    (wall : Time) (e : Engine)
    → IsValidEngine e
    → All IsValid (exported (save_begin wall e).0).entries
unfolding save_begin
exported-IsValid wall e v =
    exported_entries-IsValid (sorted_entries e.entries)
      (All-sorted_entries IsValid e.entries (AllEntries-IsValid e.entries v.filed))
