-- ===== src/Configuration/Contained.antt =====
-- internal/config/config.go: an accepted path stays in the directory of the plugin.
use cpa_antigravity_quota_gu.Prelude.{
  ◌≡◌, refl, sym, ap, ◌∙◌, subst, ◌⊎◌, Bool, true, false, ◌&&◌, ◌||◌, not, inl, inr, List, [], ◌∷◌,
  ◌++◌, reverse, arith, Text, codes, text_eq, is_empty, has_prefix, All, trim_space,
}
use cpa_antigravity_quota_gu.Configuration.Records.{guard_state_directory}
use cpa_antigravity_quota_gu.Configuration.Paths.{
  named_path, split_at, join_with, any_dot_dot, has_drive, clean_parts, path_clean, normalized_path,
  any_auth_directory, check_path_forms, validate_plugin_data_path,
}
use cpa_antigravity_quota_gu.Configuration.Components.{
  named, Component, split_at-NoSlash, clean_parts-Component, All-reverse, has_prefix-append,
  split_at-cons, named_path-split,
}

-- A path inside of the directory, by its components.
pub record Contained (path : Text) : Type 0 where
  pub file : Text
  pub rest : List Text
  pub components :
      split_at 47 path ≡ codes "data" ∷ codes "cpa-antigravity-quota-guard" ∷ file ∷ rest
  pub all_named : All (λ w. named w ≡ true) (file ∷ rest)
  pub no_auth : any_auth_directory (split_at 47 path) ≡ false

kept_parts : Text → List Text
kept_parts s = reverse (clean_parts false [] (split_at 47 s))

path_clean-relative :
    (s : Text)
    → has_prefix s (codes "/") ≡ false
    → path_clean s ≡ named_path false (join_with (codes "/") (kept_parts s))
unfolding path_clean kept_parts
path_clean-relative s h = rw h refl

-- The components of a relative path that has none that goes up.
path_clean-Components :
    (s : Text)
    → has_prefix s (codes "/") ≡ false
    → any_dot_dot (split_at 47 s) ≡ false
    → (path_clean s ≡ codes ".") ⊎ All Component (split_at 47 (path_clean s))
unfolding kept_parts
path_clean-Components s h k =
    let parts =
      All-reverse (clean_parts false [] (split_at 47 s))
        (clean_parts-Component [] (split_at 47 s) tt (split_at-NoSlash s) k) in
    elim (named_path-split (kept_parts s) parts) [
      | inl e ↦ inl (path_clean-relative s h ∙ (rw e (unfold join_with in refl)))
      | inr e ↦ inr (
          subst (λ ws. All Component ws)
            (sym (ap (λ t. split_at 47 t) (path_clean-relative s h) ∙ e)) parts)
    ]

All-named : (ws : List Text) → All Component ws → All (λ w. named w ≡ true) ws
All-named [] h = tt
All-named (w ∷ ws) (h, hs) = (ground arith, All-named ws hs)

-- An accepted path that begins with the directory.
inside-Contained :
    (path r : Text)
    → path ≡ guard_state_directory ++ (47 ∷ r)
    → All Component (split_at 47 path)
    → any_auth_directory (split_at 47 path) ≡ false
    → Contained path
unfolding split_at
inside-Contained path r e h k =
    let (file, (rest, f)) = split_at-cons r in
    let g =
      ap (λ t. split_at 47 t) e
      ∙ ap (λ ws. codes "data" ∷ codes "cpa-antigravity-quota-guard" ∷ ws) f in
    record {
      file = file;
      rest = rest;
      components = g;
      all_named = All-named (file ∷ rest) (subst (λ ws. All Component ws) g h).1.1;
      no_auth = k;
    }

passed :
    (empty rooted drive up inside same auth : Bool)
    → (not empty && not (rooted || drive) && not up && not (not inside || same) && not auth) ≡ true
    → (rooted ≡ false) × (up ≡ false) × (inside ≡ true) × (auth ≡ false)
passed empty rooted drive up inside same auth h = ground arith

dot-outside : (cleaned : Text) → cleaned ≡ codes "." → has_prefix cleaned (codes "data/") ≡ false
unfolding has_prefix
dot-outside cleaned e = rw e refl

prefix-prefix : (s p q : Text) → has_prefix s (p ++ q) ≡ true → has_prefix s p ≡ true
unfolding has_prefix
prefix-prefix s [] q h = refl
prefix-prefix [] (b ∷ p) q h = cc
prefix-prefix (a ∷ s) (b ∷ p) q h = ground (arith, prefix-prefix s p q (ground arith))

check_path_forms-Contained :
    (raw normalized cleaned : Text)
    → check_path_forms raw normalized cleaned ≡ true
    → (has_prefix normalized (codes "/") ≡ false
        → any_dot_dot (split_at 47 normalized) ≡ false
        → (cleaned ≡ codes ".") ⊎ All Component (split_at 47 cleaned))
    → Contained cleaned
unfolding check_path_forms
check_path_forms-Contained raw normalized cleaned h k =
    let inside = has_prefix cleaned (guard_state_directory ++ codes "/") in
    let auth = any_auth_directory (split_at 47 cleaned) in
    let (relative, level, starts, no_auth) =
      passed (is_empty raw) (has_prefix normalized (codes "/")) (has_drive normalized)
        (any_dot_dot (split_at 47 normalized)) inside (text_eq cleaned guard_state_directory) auth
        h in
    let (r, e) = has_prefix-append cleaned (guard_state_directory ++ codes "/") starts in
    elim (k relative level) [
      | inl dot ↦ absurd (
          cc (
            dot-outside cleaned dot,
            prefix-prefix cleaned (codes "data/") (codes "cpa-antigravity-quota-guard/") starts,
          ))
      | inr parts ↦ inside-Contained cleaned r e parts no_auth
    ]

-- A path that passes the check, with its backslashes as slashes and in its shortest form, is the
-- directory data/cpa-antigravity-quota-guard followed by one component or more, none of which is
-- empty, "." or "..", and none but the last of which is the name of a credentials directory.
pub validate_plugin_data_path-Contained :
    (value : Text)
    → validate_plugin_data_path value ≡ true
    → Contained (path_clean (normalized_path value))
unfolding validate_plugin_data_path
validate_plugin_data_path-Contained value h =
    let n = normalized_path value in
    check_path_forms-Contained (trim_space value) n (path_clean n) h (path_clean-Components n)
