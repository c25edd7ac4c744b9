-- ===== src/Cache/Errors.antt =====
-- internal/state/store.go: what a failed probe leaves of the evidence, and the text of its error.
use mathlib.Core.List.{map-append}
use cpa_antigravity_quota_gu.Prelude.{
  ℕ, ◌-◌, ◌≤◌, ◌≡◌, refl, sym, ap, ◌∙◌, true, false, inl, inr, Option, none, some, List, [], ◌∷◌,
  ◌++◌, arith, Bool-cases, ltb, leb, eq_ℤ, Text, text_eq, text_eq_iff, trim_space, to_lower,
  lower_rune, contains, has_prefix, byte_len, rune_len, take_bytes, lookup, lookup-insert,
}
use cpa_antigravity_quota_gu.Guard.Types.{Error, returns, returns_injective, fails_ne_returns}
use cpa_antigravity_quota_gu.Cache.Records.{CacheEntry, ProbeFailure, CacheStore}
use cpa_antigravity_quota_gu.Cache.Marks.{
  cache_schema_version, cache_key, entry_or_zero, any_word, sensitive_words, is_sensitive, redacted,
  sanitize_probe_error, failure_entry, mark_probe_failure,
}
use cpa_antigravity_quota_gu.Cache.Lookups.{get_entry}
use cpa_antigravity_quota_gu.Cache.Reads.{
  historical_of, historical_of_entry, get_historical_evidence,
}

take_bytes-prefix : (n : ℕ) (s : Text) → (r : Text) × (s ≡ take_bytes n s ++ r)
unfolding take_bytes
take_bytes-prefix n [] = ([], refl)
take_bytes-prefix n (c ∷ s) = elim (Bool-cases (leb (rune_len c) n)) [
  | inl e ↦ let (r, f) = take_bytes-prefix (n - rune_len c) s in (r, rw e (ap (λ t. c ∷ t) f))
  | inr e ↦ (c ∷ s, rw e refl)
]

take_bytes-byte_len : (n : ℕ) (s : Text) → byte_len (take_bytes n s) ≤ n
unfolding take_bytes byte_len
take_bytes-byte_len n [] = omega arith
take_bytes-byte_len n (c ∷ s) = elim (Bool-cases (leb (rune_len c) n)) [
  | inl e ↦ rw e (ground (arith, take_bytes-byte_len (n - rune_len c) s))
  | inr e ↦ rw e (omega arith)
]

has_prefix-more : (a b w : Text) → has_prefix a w ≡ true → has_prefix (a ++ b) w ≡ true
unfolding has_prefix
has_prefix-more a b [] h = refl
has_prefix-more [] b (x ∷ w) h = cc
has_prefix-more (c ∷ a) b (x ∷ w) h = ground (arith, has_prefix-more a b w (ground arith))

contains-empty : (s : Text) → contains s [] ≡ true
unfolding contains has_prefix
contains-empty [] = refl
contains-empty (c ∷ s) = refl

contains-nil : (x : ℕ) (w : Text) → ¬ (contains [] (x ∷ w) ≡ true)
unfolding contains has_prefix
contains-nil x w h = cc

contains-more : (a b w : Text) → contains a w ≡ true → contains (a ++ b) w ≡ true
unfolding contains
contains-more [] b [] h = contains-empty b
contains-more [] b (x ∷ w) h = absurd (contains-nil x w h)
contains-more (c ∷ a) b w h = elim (Bool-cases (has_prefix (c ∷ a) w)) [
  | inl e ↦ ground (arith, has_prefix-more (c ∷ a) b w e)
  | inr e ↦ ground (arith, contains-more a b w (ground arith))
]

any_word-more : (ws : List Text) (a b : Text) → any_word ws (a ++ b) ≡ false → any_word ws a ≡ false
unfolding any_word
any_word-more [] a b h = refl
any_word-more (w ∷ ws) a b h = elim (Bool-cases (contains a w)) [
  | inl e ↦ ground (arith, contains-more a b w e)
  | inr e ↦ ground (arith, any_word-more ws a b (ground arith))
]

is_sensitive-take :
    (n : ℕ) (s : Text) → is_sensitive s ≡ false → is_sensitive (take_bytes n s) ≡ false
unfolding is_sensitive to_lower
is_sensitive-take n s h =
    let (r, e) = take_bytes-prefix n s in
    any_word-more sensitive_words (to_lower (take_bytes n s)) (to_lower r) (
      sym (
        ap (λ t. any_word sensitive_words t)
          (ap (λ t. to_lower t) e ∙ map-append (λ c. lower_rune c) (take_bytes n s) r))
      ∙ h)

redacted-fits : (is_sensitive redacted ≡ false) × (byte_len redacted ≤ 240)
unfolding is_sensitive byte_len
redacted-fits = (refl, ground arith)

-- Whatever the message of a failed probe is, the text that is kept of it has at most 240 bytes and
-- contains, in lower case, none of the words that mark a secret.
pub sanitize_probe_error-clean :
    (message : Option Text)
    → (is_sensitive (sanitize_probe_error message) ≡ false)
      × (byte_len (sanitize_probe_error message) ≤ 240)
unfolding sanitize_probe_error
sanitize_probe_error-clean none = (refl, omega arith)
sanitize_probe_error-clean (some message) =
    let text = trim_space message in
    elim (Bool-cases (is_sensitive text)) [
      | inl e ↦ rw e redacted-fits
      | inr e ↦ rw e (elim (Bool-cases (ltb 240 (byte_len text))) [
        | inl f ↦ rw f (is_sensitive-take 240 text e, take_bytes-byte_len 240 text)
        | inr f ↦ rw f (e, ground arith)
      ])
    ]

-- The entry that a failed probe would find is of its own account and group, and of the current schema
-- version.
abbrev pub OwnEntry : ProbeFailure → CacheStore → Type 0
OwnEntry p s =
    (x : CacheEntry)
    → lookup (cache_key p.auth_index p.model_group) s.entries ≡ some x
    → (eq_ℤ x.schema_version cache_schema_version ≡ true)
      × (trim_space p.auth_index ≡ x.auth_index)
      × (trim_space p.model_group ≡ x.model_group)

historical_of-failure :
    (p : ProbeFailure) (x : CacheEntry)
    → trim_space p.auth_index ≡ x.auth_index
    → trim_space p.model_group ≡ x.model_group
    → historical_of (failure_entry p x) ≡ historical_of x
unfolding failure_entry
historical_of-failure p x a g =
    ap (λ z. historical_of (record (failure_entry p x) { auth_index = z })) a
    ∙ ap
        (λ z.
          historical_of (record (failure_entry p x) { auth_index = x.auth_index; model_group = z }))
        g
    ∙ unfold historical_of in refl

failure-historical :
    (p : ProbeFailure) (o : Option CacheEntry)
    → ((x : CacheEntry)
        → o ≡ some x
        → (eq_ℤ x.schema_version cache_schema_version ≡ true)
          × (trim_space p.auth_index ≡ x.auth_index)
          × (trim_space p.model_group ≡ x.model_group))
    → historical_of_entry (some (failure_entry p (entry_or_zero o))) ≡ historical_of_entry o
unfolding failure_entry
failure-historical p none h = refl
failure-historical p (some x) h =
    let (version, index, group) = h x refl in
    let same = historical_of-failure p x index group in ground (arith, version, same)

-- A failed probe of an account and group leaves the evidence of every account and group as it was,
-- if the entry that is stored under their key, where there is one, is of this account and group and
-- of the current schema version.
pub mark_probe_failure-evidence :
    (ctx : Option Error) (p : ProbeFailure) (s t : CacheStore) (auth_index model_group : Text)
    → OwnEntry p s
    → mark_probe_failure ctx p s ≡ returns t
    → get_historical_evidence auth_index model_group t
      ≡ get_historical_evidence auth_index model_group s
unfolding mark_probe_failure get_historical_evidence get_entry
mark_probe_failure-evidence (some e) p s t a g own m = absurd (fails_ne_returns m)
mark_probe_failure-evidence none p s t a g own m =
    let key = cache_key p.auth_index p.model_group in
    let k = cache_key a g in
    let y = failure_entry p (entry_or_zero (lookup key s.entries)) in
    ap (λ u. historical_of_entry (lookup k u.entries)) (sym (returns_injective m))
    ∙ ap (λ o. historical_of_entry o) (lookup-insert key k y s.entries)
    ∙ elim (Bool-cases (text_eq key k)) [
      | inr e ↦ rw e refl
      | inl e ↦ rw e (
          failure-historical p (lookup key s.entries) own
          ∙ ap (λ j. historical_of_entry (lookup j s.entries)) ((text_eq_iff key k).0 e))
    ]
