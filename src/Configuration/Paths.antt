-- ===== src/Configuration/Paths.antt =====
-- internal/config/config.go: the checks of a path, with package path and strings on text.
use cpa_antigravity_quota_gu.Prelude.{
  ℕ, Bool, true, false, ◌&&◌, ◌||◌, not, List, [], ◌∷◌, ◌++◌, reverse, ◌==◌, ltb, if◌then◌else◌,
  Text, codes, text_eq, is_empty, trim_space, to_lower, has_prefix, replace_rune,
}
use cpa_antigravity_quota_gu.Configuration.Records.{guard_state_directory}

-- strings.Split at one character.
abbrev pub onto_first : ℕ → List Text → List Text
onto_first c [] = (c ∷ []) ∷ []
onto_first c (w ∷ ws) = (c ∷ w) ∷ ws

unfoldable pub split_at : ℕ → Text → List Text
split_at sep [] = [] ∷ []
split_at sep (c ∷ s) =
    let rest = split_at sep s in if c == sep then [] ∷ rest else onto_first c rest

-- strings.Join
unfoldable pub join_with : Text → List Text → Text
join_with sep [] = []
join_with sep (w ∷ []) = w
join_with sep (w ∷ v ∷ ws) = w ++ (sep ++ join_with sep (v ∷ ws))

abbrev pub slash : ℕ
slash = 47

abbrev pub is_dot : Text → Bool
is_dot s = text_eq s (codes ".")

abbrev pub is_dot_dot : Text → Bool
is_dot_dot s = text_eq s (codes "..")

-- path.Clean: the components that stay, the last first. A ".." takes the one before it away, if that
-- is not one itself; at the root there is nothing to take away.
abbrev climb : Bool → List Text → List Text
climb rooted [] = if rooted then [] else codes ".." ∷ []
climb rooted (w ∷ ws) = if is_dot_dot w then codes ".." ∷ w ∷ ws else ws

unfoldable pub clean_parts : Bool → List Text → List Text → List Text
unfolding text_eq
clean_parts rooted kept [] = kept
clean_parts rooted kept (w ∷ ws) =
    clean_parts rooted
      (if is_empty w || is_dot w
        then kept
        else if is_dot_dot w
        then climb rooted kept
        else w ∷ kept)
      ws

abbrev pub named_path : Bool → Text → Text
named_path true s = slash ∷ s
named_path false [] = codes "."
named_path false (c ∷ s) = c ∷ s

-- path.Clean
unfoldable pub path_clean : Text → Text
unfolding clean_parts split_at join_with has_prefix
path_clean s =
    let rooted = has_prefix s (codes "/") in
    named_path rooted (join_with (codes "/") (reverse (clean_parts rooted [] (split_at slash s))))

-- `len(normalized) >= 3 && normalized[1] == ':' && normalized[2] == '/'`: the first rune is one byte.
abbrev pub has_drive : Text → Bool
has_drive (a ∷ b ∷ c ∷ s) = ltb a 128 && b == 58 && c == slash
has_drive _ = false

abbrev pub any_dot_dot : List Text → Bool
any_dot_dot [] = false
any_dot_dot (w ∷ ws) = is_dot_dot w || any_dot_dot ws

-- A directory that holds credentials.
unfoldable pub is_auth_directory : Text → Bool
unfolding text_eq to_lower has_prefix
is_auth_directory part =
    let lower = to_lower part in
    text_eq lower (codes "auth")
    || text_eq lower (codes "auths")
    || text_eq lower (codes "credential")
    || text_eq lower (codes "credentials")
    || has_prefix lower (codes "auth-")
    || has_prefix lower (codes "auth_")
    || has_prefix lower (codes "credentials-")
    || has_prefix lower (codes "credentials_")

-- The loop over all parts but the last.
unfoldable pub any_auth_directory : List Text → Bool
unfolding is_auth_directory
any_auth_directory [] = false
any_auth_directory (w ∷ []) = false
any_auth_directory (w ∷ v ∷ ws) = is_auth_directory w || any_auth_directory (v ∷ ws)

abbrev pub normalized_path : Text → Text
normalized_path s = replace_rune 92 slash (trim_space s)

-- The checks of `validatePluginDataPath`, of the path trimmed, with slashes, and cleaned.
unfoldable pub check_path_forms : Text → Text → Text → Bool
unfolding has_prefix split_at text_eq any_auth_directory
check_path_forms raw normalized cleaned =
    not (is_empty raw)
    && not (has_prefix normalized (codes "/") || has_drive normalized)
    && not (any_dot_dot (split_at slash normalized))
    && not (
        not (has_prefix cleaned (guard_state_directory ++ codes "/"))
        || text_eq cleaned guard_state_directory)
    && not (any_auth_directory (split_at slash cleaned))

-- `validatePluginDataPath`; true where the source returns no error.
unfoldable pub validate_plugin_data_path : Text → Bool
unfolding trim_space replace_rune path_clean check_path_forms
validate_plugin_data_path value =
    check_path_forms (trim_space value) (normalized_path value) (path_clean (normalized_path value))
