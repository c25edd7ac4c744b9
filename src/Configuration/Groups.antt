-- ===== src/Configuration/Groups.antt =====
-- internal/config/antigravity_model_group.go: the names of the two model groups.
use cpa_antigravity_quota_gu.Prelude.{
  ℕ, Bool, true, false, ◌&&◌, ◌||◌, not, Option, none, some, List, [], ◌∷◌, reverse, ◌==◌,
  if◌then◌else◌, Text, codes, text_eq, is_empty, trim_space, to_lower, replace_rune, is_space,
}
use cpa_antigravity_quota_gu.Configuration.Records.{model_group_gemini, model_group_claude_gpt}
use cpa_antigravity_quota_gu.Configuration.Paths.{join_with}

-- The text between the first and the last character.
unfoldable pub drop_last : Text → Text
drop_last [] = []
drop_last (c ∷ []) = []
drop_last (c ∷ d ∷ s) = c ∷ drop_last (d ∷ s)

abbrev last_or : ℕ → Text → ℕ
last_or d [] = d
last_or d (c ∷ s) = last_or c s

abbrev is_quote : ℕ → Bool
is_quote c = c == 34 || c == 39

-- `yamlText`
abbrev unquote : Text → Text
unquote [] = []
unquote (c ∷ s) = if not (is_empty s) && c == last_or c s && is_quote c then drop_last s else c ∷ s

unfoldable pub yaml_text : Text → Text
unfolding trim_space drop_last
yaml_text value = unquote (trim_space value)

-- strings.Fields: the words between white space, the letters of the last one reversed.
abbrev add_word : Bool → Text → List Text → List Text
add_word true word ws = reverse word ∷ ws
add_word false word ws = ws

unfoldable pub fields_from : Text → Text → List Text
unfolding is_space
fields_from word [] = add_word (not (is_empty word)) word []
fields_from word (c ∷ s) =
    add_word (is_space c && not (is_empty word)) word
      (fields_from (if is_space c then [] else c ∷ word) s)

-- `normalizeAntigravityModelGroup`
unfoldable pub normalize_model_group : Text → Text
unfolding yaml_text trim_space to_lower replace_rune fields_from join_with
normalize_model_group value =
    join_with (codes " ")
      (fields_from [] (replace_rune 45 95 (to_lower (trim_space (yaml_text value)))))

-- `ParseAntigravityModelGroup`; an error is `none`.
unfoldable pub parse_model_group : Text → Option Text
unfolding normalize_model_group text_eq
parse_model_group value =
    let name = normalize_model_group value in
    if is_empty name || text_eq name model_group_gemini
    then some model_group_gemini
    else if text_eq name model_group_claude_gpt
        || text_eq name (codes "claudegpt")
        || text_eq name (codes "claude-gpt")
        || text_eq name (codes "claude gpt")
        || text_eq name (codes "claude_and_gpt")
        || text_eq name (codes "claude-and-gpt")
        || text_eq name (codes "claude and gpt")
    then some model_group_claude_gpt
    else none
