-- ===== src/Guard/Roster.antt =====
-- internal/guard/engine.go: the roster of identities. `sha256_hex` is the digest of crypto/sha256.
pub mod Credentials
pub mod Accepted
pub mod Keeps
use cpa_antigravity_quota_gu.Prelude.{
  Bool, true, false, ◌&&◌, ◌||◌, not, Option, none, some, List, [], ◌∷◌, ◌++◌, if◌then◌else◌, eq_ℤ,
  Text, text_eq, is_empty, trim_space, to_lower, Dict, lookup, insert,
}
use cpa_antigravity_quota_gu.Guard.Types.{
  Time, ModelGroup, gemini, claude_gpt, invalid_identity, Fallible, returns, fails, ◌>>=◌,
}
use cpa_antigravity_quota_gu.Guard.Records.{Identity, Entry}
use cpa_antigravity_quota_gu.Guard.Engine.{Engine, entry_key, mark_dirty}
use cpa_antigravity_quota_gu.Guard.Entries.{entries_equal, new_entry}

-- `FingerprintIdentity`
unfoldable pub fingerprint_identity : (Text → Text) → Identity → Text
fingerprint_identity sha256_hex i = sha256_hex (
    trim_space i.auth_index
    ++ (0 ∷ (trim_space i.auth_id ++ (0 ∷ to_lower (trim_space i.provider)))))

unfoldable pub normalize_identity : (Text → Text) → Identity → Fallible Identity
unfolding fingerprint_identity
normalize_identity sha256_hex identity =
    let i : Identity = record {
      auth_id = trim_space identity.auth_id;
      auth_index = trim_space identity.auth_index;
      identity_fingerprint = trim_space identity.identity_fingerprint;
      provider = trim_space identity.provider;
      priority = identity.priority;
    } in
    if is_empty i.auth_index || is_empty i.auth_id
    then fails invalid_identity
    else returns (
        if is_empty i.identity_fingerprint
        then record i { identity_fingerprint = fingerprint_identity sha256_hex i }
        else i)

-- `_, seen := set[k]`
unfoldable pub seen : Text → List Text → Bool
seen k [] = false
seen k (j ∷ js) = text_eq j k || seen k js

-- The first loop of `ReplaceRoster`, over the sets of indexes and ids that it has met.
unfoldable pub normalize_roster :
    (Text → Text) → List Text → List Text → List Identity → Fallible (List Identity)
unfolding normalize_identity seen
normalize_roster sha indexes ids [] = returns []
normalize_roster sha indexes ids (identity ∷ rest) = do
  item ← normalize_identity sha identity
  let tail = normalize_roster sha (item.auth_index ∷ indexes) (item.auth_id ∷ ids) rest
  if seen item.auth_index indexes || seen item.auth_id ids
      then fails invalid_identity
      else (tail >>= λ items. returns (item ∷ items))

-- `current.AuthID == identity.AuthID && current.IdentityFingerprint == …`
abbrev pub same_credential : Entry → Identity → Bool
same_credential c i =
    text_eq c.auth_id i.auth_id && text_eq c.identity_fingerprint i.identity_fingerprint

-- One entry of the next roster: the old one under the same credential, or a new one.
unfoldable pub roster_entry : Option Entry → Identity → ModelGroup → Entry
unfolding new_entry text_eq
roster_entry none i group = new_entry i group
roster_entry (some current) i group =
    if same_credential current i
    then record current { provider = i.provider; priority = i.priority }
    else new_entry i group

-- The second loop of `ReplaceRoster`: from the old entries and the part of the next ones built.
unfoldable pub roster_entries : Dict Entry → Dict Entry → List Identity → Dict Entry
unfolding roster_entry entry_key
roster_entries old next [] = next
roster_entries old next (i ∷ is) =
    let kg = entry_key i.auth_index gemini in
    let kc = entry_key i.auth_index claude_gpt in
    roster_entries old
      (insert kc (roster_entry (lookup kc old) i claude_gpt)
        (insert kg (roster_entry (lookup kg old) i gemini) next))
      is

unfoldable pub roster_auth_by_id : Dict Text → List Identity → Dict Text
roster_auth_by_id next [] = next
roster_auth_by_id next (i ∷ is) = roster_auth_by_id (insert i.auth_id i.auth_index next) is

-- `ReplaceRoster`
unfoldable pub replace_roster : (Text → Text) → Time → List Identity → Engine → Fallible Engine
unfolding normalize_roster roster_entries roster_auth_by_id entries_equal mark_dirty
replace_roster sha wall identities e = do
  normalized ← normalize_roster sha [] [] identities
  let next = roster_entries e.entries [] normalized
  let next_auth = roster_auth_by_id [] normalized
  returns (
      if entries_equal e.entries next
      then record e { auth_by_id = next_auth }
      else mark_dirty wall wall (record e { entries = next; auth_by_id = next_auth }))

-- One round of the loop of `RegisterIdentity`: the entries, and whether any changed.
unfoldable pub register_group : Identity → ModelGroup → Dict Entry × Bool → Dict Entry × Bool
unfolding new_entry entry_key text_eq
register_group i group (entries, changed) =
    let key = entry_key i.auth_index group in
    elim (lookup key entries) [
      | none ↦ (insert key (new_entry i group) entries, true)
      | some current ↦
          if not (text_eq current.auth_id i.auth_id)
            || not (text_eq current.identity_fingerprint i.identity_fingerprint)
          then (insert key (new_entry i group) entries, true)
          else if not (text_eq current.provider i.provider)
              || not (eq_ℤ current.priority i.priority)
          then (
            insert key (record current { provider = i.provider; priority = i.priority }) entries,
            true,
          )
          else (entries, changed)
    ]

-- Deletes the other ids of an index.
unfoldable pub drop_other_ids : Identity → Dict Text → Dict Text
drop_other_ids i [] = []
drop_other_ids i ((id, index) ∷ m) =
    let rest = drop_other_ids i m in
    if text_eq index i.auth_index && not (text_eq id i.auth_id) then rest else (id, index) ∷ rest

abbrev pub owned_elsewhere : Option Text → Text → Bool
owned_elsewhere none index = false
owned_elsewhere (some existing) index = not (text_eq existing index)

-- `RegisterIdentity`
unfoldable pub register_identity : (Text → Text) → Time → Identity → Engine → Fallible Engine
unfolding normalize_identity register_group drop_other_ids mark_dirty
register_identity sha wall identity e = do
  i ← normalize_identity sha identity
  let (next, changed) = register_group i claude_gpt (register_group i gemini (e.entries, false))
  let next_auth = insert i.auth_id i.auth_index (drop_other_ids i e.auth_by_id)
  let e' = record e { entries = next; auth_by_id = next_auth }
  if owned_elsewhere (lookup i.auth_id e.auth_by_id) i.auth_index
      then fails invalid_identity
      else returns (if changed then mark_dirty wall wall e' else e')
