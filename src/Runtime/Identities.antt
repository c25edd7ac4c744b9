-- ===== src/Runtime/Identities.antt =====
-- internal/runtime/official_guard.go: the accounts of the host as identities of the guard.
-- `sha256_hex` is the digest of crypto/sha256.
use cpa_antigravity_quota_gu.Prelude.{
  Bool, false, ◌&&◌, ◌||◌, not, Option, none, some, List, [], ◌∷◌, ◌++◌, if◌then◌else◌, Text, codes,
  text_eq, is_empty, trim_space, to_lower, contains, Dict, insert,
}
use cpa_antigravity_quota_gu.Guard.Types.{Time, ModelGroup, Fallible}
use cpa_antigravity_quota_gu.Guard.Records.{Config, Identity}
use cpa_antigravity_quota_gu.Guard.Classify.{is_antigravity_provider}
use cpa_antigravity_quota_gu.Guard.Engine.{Engine}
use cpa_antigravity_quota_gu.Guard.Roster.{replace_roster}
use cpa_antigravity_quota_gu.Configuration.Records.{GuardConfig}
use cpa_antigravity_quota_gu.Runtime.Records.{AuthFile, policy_of, group_of}

-- `containsProvider`
unfoldable pub lists_provider : List Text → Text → Bool
unfolding to_lower trim_space text_eq
lists_provider [] wanted = false
lists_provider (value ∷ values) wanted =
    text_eq (to_lower (trim_space value)) wanted || lists_provider values wanted

unfoldable pub contains_provider : List Text → Text → Bool
unfolding lists_provider to_lower trim_space
contains_provider values want = lists_provider values (to_lower (trim_space want))

-- `runtimeGuardConfig`
unfoldable pub runtime_guard_config : GuardConfig → Config
unfolding policy_of
runtime_guard_config c = record {
  generic_429_threshold = c.generic_429.threshold;
  generic_429_window = c.generic_429.window;
  generic_429_initial_cooldown = c.generic_429.initial_cooldown;
  generic_429_max_cooldown = c.generic_429.max_cooldown;
  half_open_lease = c.half_open_lease;
  evidence_max_age = c.evidence_max_age;
  unknown_auth_policy = policy_of c.unknown_auth_policy;
  unknown_model_policy = policy_of c.unknown_model_policy;
}

-- `isAntigravityAuthFile`
unfoldable pub is_antigravity_auth_file : AuthFile → Bool
unfolding is_antigravity_provider to_lower trim_space contains
is_antigravity_auth_file file =
    is_antigravity_provider (to_lower (trim_space file.provider))
    || contains (to_lower (trim_space file.credential_type)) (codes "antigravity")
    || contains (to_lower (trim_space file.name)) (codes "antigravity")

-- `guardIdentityFingerprint`
unfoldable pub guard_identity_fingerprint : (Text → Text) → AuthFile → Text
unfolding trim_space to_lower
guard_identity_fingerprint sha256_hex file = sha256_hex (
    trim_space file.id
    ++ (0
        ∷ (trim_space file.auth_index
            ++ (0
                ∷ (trim_space file.name
                    ++ (0
                        ∷ (to_lower (trim_space file.provider)
                            ++ (0
                                ∷ (trim_space file.account
                                    ++ (0 ∷ to_lower (trim_space file.email)))))))))))

-- `guardIdentityFromFile`; `none` where the source returns false.
unfoldable pub guard_identity_from_file : (Text → Text) → AuthFile → Option Identity
unfolding is_antigravity_auth_file guard_identity_fingerprint trim_space
guard_identity_from_file sha256_hex file =
    let auth_id =
      if is_empty (trim_space file.id) then trim_space file.name else trim_space file.id in
    if not (is_antigravity_auth_file file) || file.disabled
    then none
    else if is_empty auth_id || is_empty (trim_space file.auth_index)
    then none
    else some (record {
      auth_id = auth_id;
      auth_index = trim_space file.auth_index;
      identity_fingerprint = guard_identity_fingerprint sha256_hex file;
      provider = codes "antigravity";
      priority = file.priority;
    })

abbrev add_identity : Option Identity → List Identity → List Identity
add_identity none is = is
add_identity (some i) is = i ∷ is

unfoldable pub guard_identities : (Text → Text) → List AuthFile → List Identity
unfolding guard_identity_from_file
guard_identities sha256_hex [] = []
guard_identities sha256_hex (file ∷ files) =
    add_identity (guard_identity_from_file sha256_hex file) (guard_identities sha256_hex files)

-- `replaceGuardRosterFromFiles`
unfoldable pub replace_guard_roster_from_files :
    (Text → Text) → Time → List AuthFile → Engine → Fallible Engine
unfolding guard_identities replace_roster
replace_guard_roster_from_files sha256_hex wall files =
    replace_roster sha256_hex wall (guard_identities sha256_hex files)

abbrev put_identity : Option Identity → Dict Identity → Dict Identity
put_identity none m = m
put_identity (some i) m = insert i.auth_index i m

-- `guardIdentitiesByIndex`, from the files that are left and the map so far.
unfoldable pub identities_into : (Text → Text) → Dict Identity → List AuthFile → Dict Identity
unfolding guard_identity_from_file insert
identities_into sha256_hex m [] = m
identities_into sha256_hex m (file ∷ files) =
    identities_into sha256_hex (put_identity (guard_identity_from_file sha256_hex file) m) files

unfoldable pub guard_identities_by_index : (Text → Text) → List AuthFile → Dict Identity
unfolding identities_into
guard_identities_by_index sha256_hex files = identities_into sha256_hex [] files

-- `disabledGuardAuthIndexes`
unfoldable pub disabled_guard_auth_indexes : List AuthFile → List Text
unfolding is_antigravity_auth_file trim_space
disabled_guard_auth_indexes [] = []
disabled_guard_auth_indexes (file ∷ files) =
    let rest = disabled_guard_auth_indexes files in
    if is_antigravity_auth_file file && file.disabled && not (is_empty (trim_space file.auth_index))
    then trim_space file.auth_index ∷ rest
    else rest

-- `configuredGuardGroups`
unfoldable pub configured_guard_groups : List Text → List ModelGroup
unfolding group_of
configured_guard_groups [] = []
configured_guard_groups (group ∷ groups) = group_of group ∷ configured_guard_groups groups
