-- ===== src/Guard/Classify.antt =====
-- internal/guard/classify.go: models to quota groups, and the Antigravity provider names.
use cpa_antigravity_quota_gu.Prelude.{
  Bool, true, false, ◌||◌, Option, none, some, List, [], ◌∷◌, if◌then◌else◌, Text, codes, text_eq,
  is_empty, trim_space, to_lower, contains, replace_rune,
}
use cpa_antigravity_quota_gu.Guard.Types.{ModelGroup, gemini, claude_gpt, group_eq}
use cpa_antigravity_quota_gu.Guard.Records.{Candidate, PickRequest}

-- Two Booleans differ: the negation of `hasGemini == hasClaudeGPT`.
abbrev classify_by : Bool → Bool → Option ModelGroup
classify_by true false = some gemini
classify_by false true = some claude_gpt
classify_by true true = none
classify_by false false = none

-- `ClassifyModel`; `none` where the source returns false.
unfoldable pub classify_model : Text → Option ModelGroup
unfolding trim_space to_lower contains
classify_model model =
    let text = to_lower (trim_space model) in
    if is_empty text
    then none
    else classify_by (contains text (codes "gemini")) (
        contains text (codes "claude")
        || contains text (codes "gpt")
        || contains text (codes "openai"))

unfoldable pub is_antigravity_provider : Text → Bool
unfolding trim_space to_lower replace_rune text_eq
is_antigravity_provider provider =
    let normalized = replace_rune b'_' b'-' (to_lower (trim_space provider)) in
    text_eq normalized (codes "antigravity")
    || text_eq normalized (codes "google-antigravity")
    || text_eq normalized (codes "antigravity-oauth")

unfoldable pub any_antigravity : List Text → Bool
unfolding is_antigravity_provider
any_antigravity [] = false
any_antigravity (p ∷ ps) = is_antigravity_provider p || any_antigravity ps

unfoldable pub any_antigravity_candidate : List Candidate → Bool
unfolding is_antigravity_provider
any_antigravity_candidate [] = false
any_antigravity_candidate (c ∷ cs) =
    is_antigravity_provider c.provider || any_antigravity_candidate cs

unfoldable pub route_includes_antigravity : PickRequest → Bool
unfolding is_antigravity_provider any_antigravity any_antigravity_candidate
route_includes_antigravity req =
    is_antigravity_provider req.provider
    || any_antigravity req.providers
    || any_antigravity_candidate req.candidates

unfoldable pub group_listed : ModelGroup → List ModelGroup → Bool
unfolding group_eq
group_listed g [] = false
group_listed g (c ∷ cs) = group_eq c g || group_listed g cs

-- An empty list enforces every group.
unfoldable pub group_enforced : ModelGroup → List ModelGroup → Bool
unfolding group_listed
group_enforced g [] = true
group_enforced g (c ∷ cs) = group_listed g (c ∷ cs)
