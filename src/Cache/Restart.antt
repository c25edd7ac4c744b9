-- ===== src/Cache/Restart.antt =====
-- internal/state/store.go: a store that was saved is loaded as it was.
use cpa_antigravity_quota_gu.Prelude.{
  ◌≡◌, refl, ap, ◌∙◌, false, inl, inr, Option, none, some, [], ◌∷◌, Bool-cases, Option-cases,
  if◌then◌else◌, Text, text_eq, text_eq_iff, is_empty, trim_space, Dict, AllEntries,
}
use cpa_antigravity_quota_gu.Guard.Types.{
  Error, unsafe_state_path, Fallible, returns, fails, ◌>>◌, fails_ne_returns,
}
use cpa_antigravity_quota_gu.Guard.Files.{Files, clean_path, no_path}
use cpa_antigravity_quota_gu.Cache.Normal.{Sound}
use cpa_antigravity_quota_gu.Cache.Histories.{normalize_sample_history-fixed}
use cpa_antigravity_quota_gu.Cache.Records.{CacheEntry, CacheStore, CacheDocument}
use cpa_antigravity_quota_gu.Cache.Disk.{
  read_cache_file, CacheCodec, normalized_entries, store_of, loaded, refused, load_bytes, load_path,
  load_cache, CacheRun, document_of, write_cache, verify_cache, with_newline, save_atomic,
}

-- The decoder reads what the encoder writes of a document, and the text is not blank.
pub record Decodes (c : CacheCodec) (d : CacheDocument) : Type 0 where
  pub back : (t : Text) → c.encode d ≡ some t → c.decode (with_newline t) ≡ some d
  pub visible : (t : Text) → c.encode d ≡ some t → is_empty (trim_space (with_newline t)) ≡ false

abbrev pub SoundEntries : CacheStore → Type 0
SoundEntries s = AllEntries (λ k x. Sound x.samples x.learning_baseline_sequence) s.entries

normalized_entries-fixed :
    (m : Dict CacheEntry)
    → AllEntries (λ k x. Sound x.samples x.learning_baseline_sequence) m
    → normalized_entries m ≡ m
unfolding normalized_entries
normalized_entries-fixed [] h = refl
normalized_entries-fixed ((k, x) ∷ m) (h, hs) =
    rw (normalize_sample_history-fixed x.samples x.learning_baseline_sequence h)
      (ap (λ r. (k, x) ∷ r) (normalized_entries-fixed m hs))

verify_cache-back :
    (c : CacheCodec) (content : Text) (w : Fallible (Unit {0})) (b : Fallible Text)
    → (w >> verify_cache c content b) ≡ returns tt
    → b ≡ returns content
unfolding verify_cache
verify_cache-back c content (fails e) b h = absurd (fails_ne_returns h)
verify_cache-back c content (returns _) (fails e) h = absurd (fails_ne_returns h)
verify_cache-back c content (returns _) (returns back) h =
    elim (Bool-cases (text_eq back content)) [
      | inl e ↦ ap (λ t. returns t) ((text_eq_iff back content).0 e)
      | inr e ↦ absurd (fails_ne_returns (rw e at h))
    ]

save_atomic-read :
    (r : CacheRun) (c : CacheCodec) (ctx : Option Error) (s : CacheStore)
    → save_atomic r c ctx s ≡ returns tt
    → (t : Text) × ((c.encode (document_of s) ≡ some t)
        × (read_cache_file r.after s.path ≡ returns (with_newline t)))
unfolding save_atomic
save_atomic-read r c (some e) s h = absurd (fails_ne_returns h)
save_atomic-read r c none s h = elim (Option-cases (c.encode (document_of s))) [
  | inl e ↦ absurd (fails_ne_returns (rw e at h))
  | inr (t, e) ↦ (
    t,
    (
      e,
      verify_cache-back c (with_newline t) (write_cache r s.path (with_newline t))
          (read_cache_file r.after s.path) (rw e at h),
    ),
  )
]

store_of-document : (s : CacheStore) → SoundEntries s → store_of s.path (document_of s) ≡ s
unfolding store_of
store_of-document s h = ap (λ m. record s { entries = m }) (normalized_entries-fixed s.entries h)

load_bytes-saved :
    (c : CacheCodec) (path t : Text) (s : CacheStore)
    → Decodes c (document_of s)
    → c.encode (document_of s) ≡ some t
    → load_bytes c path (returns (with_newline t)) ≡ loaded (store_of path (document_of s))
load_bytes-saved c path t s d e = rw (d.visible t e) (rw (d.back t e) refl)

load_path-bytes :
    (f : Files) (c : CacheCodec) (path : Text)
    → no_path path ≡ false
    → load_path f c path ≡ load_bytes c path (read_cache_file f path)
load_path-bytes f c path q =
    ap (λ b. if b then refused unsafe_state_path else load_bytes c path (read_cache_file f path)) q

-- A store whose histories are sound, at a clean path, is loaded as it was from the files that a
-- successful save has left, if the codec reads what it writes of this store.
pub load-save_atomic :
    (r : CacheRun) (c : CacheCodec) (ctx : Option Error) (s : CacheStore)
    → Decodes c (document_of s)
    → SoundEntries s
    → clean_path r.after s.path ≡ s.path
    → no_path s.path ≡ false
    → save_atomic r c ctx s ≡ returns tt
    → load_cache r.after c none s.path ≡ record { store = some s; error = none }
unfolding load_cache
load-save_atomic r c ctx s d h p q m =
    let (t, (e, back)) = save_atomic-read r c ctx s m in
    ap (λ path. load_path r.after c path) p
    ∙ load_path-bytes r.after c s.path q
    ∙ ap (λ b. load_bytes c s.path b) back
    ∙ load_bytes-saved c s.path t s d e
    ∙ ap (λ u. loaded u) (store_of-document s h)
