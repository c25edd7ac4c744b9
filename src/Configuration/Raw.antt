-- ===== src/Configuration/Raw.antt =====
-- internal/config/config.go: the startup configuration, from the decoded document to the settings.
use cpa_antigravity_quota_gu.Prelude.{
  Bool, false, ◌&&◌, ◌||◌, not, Option, none, some, List, [], ◌∷◌, reverse, ◌==◌, if◌then◌else◌, ℤ,
  Text, codes, text_eq, is_empty, trim_space, to_lower,
}
use cpa_antigravity_quota_gu.Configuration.Records.{
  Generic429Dynamic, GuardDynamic, PluginConfig, Library, default_plugin_config,
}
use cpa_antigravity_quota_gu.Configuration.Paths.{split_at}
use cpa_antigravity_quota_gu.Configuration.Guarding.{◌>>=◌, guard_dynamic, to_config}
use cpa_antigravity_quota_gu.Configuration.Dynamic.{validate_plugin_config}

pub record RawGeneric429 : Type 0 where
  pub threshold : Option ℤ
  pub window : Option Text
  pub initial_cooldown : Option Text
  pub max_cooldown : Option Text

-- A json.RawMessage is its text.
pub record RawConfig : Type 0 where
  pub enabled : Option Bool
  pub auto_apply : Option Bool
  pub state_cache_path : Option Text
  pub required_scheduler_for : Text
  pub mode : Option Text
  pub managed_auth : Option Text
  pub enforced_groups : Text
  pub require_uniform_priority : Option Bool
  pub probe_interval : Option Text
  pub evidence_max_age : Option Text
  pub generic_429 : Option RawGeneric429
  pub half_open_lease : Option Text
  pub unknown_auth_policy : Option Text
  pub unknown_model_policy : Option Text
  pub state_path : Option Text
  pub generic_429_threshold : Option ℤ
  pub generic_429_window : Option Text
  pub generic_429_initial_cooldown : Option Text
  pub generic_429_max_cooldown : Option Text

-- encoding/json on a message: as a list of strings, and as one string.
pub record Json : Type 0 where
  pub strings : Text → Option (List Text)
  pub string : Text → Option Text

-- `if p != nil { x = *p }`
abbrev pub override {ℓ} : {A : Type ℓ} → Option A → A → A
override none x = x
override (some y) x = y

abbrev trim_quotes_left : Text → Text
trim_quotes_left [] = []
trim_quotes_left (c ∷ s) = if c == 34 || c == 39 then trim_quotes_left s else c ∷ s

-- `strings.Trim` of both quotes.
abbrev trim_quotes : Text → Text
trim_quotes s = reverse (trim_quotes_left (reverse (trim_quotes_left s)))

abbrev trim_bracket_left : Text → Text
trim_bracket_left [] = []
trim_bracket_left (c ∷ s) = if c == 91 then s else c ∷ s

abbrev trim_bracket_right : Text → Text
trim_bracket_right s = reverse (after (reverse s))
  where
    after : Text → Text
    after [] = []
    after (c ∷ t) = if c == 93 then t else c ∷ t

-- The items of a comma-separated string.
unfoldable pub listed_items : List Text → List Text
unfolding trim_space
listed_items [] = []
listed_items (w ∷ ws) =
    let item = trim_quotes (trim_space w) in
    let rest = listed_items ws in if is_empty item then rest else item ∷ rest

unfoldable pub items_of_text : Text → List Text
unfolding trim_space listed_items split_at
items_of_text raw =
    let text = trim_bracket_right (trim_bracket_left (trim_space raw)) in
    if is_empty text then [] else listed_items (split_at 44 text)

-- `decodeEnforcedGroups`
abbrev strings_or_items : Option (List Text) → Option Text → Option (List Text)
strings_or_items (some groups) text = some groups
strings_or_items none none = none
strings_or_items none (some text) = some (items_of_text text)

unfoldable pub decode_enforced_groups : Json → Text → Option (List Text)
unfolding items_of_text
decode_enforced_groups j raw = strings_or_items (j.strings raw) (j.string raw)

-- `normalizeProviders`, with the providers already seen.
abbrev is_seen : Text → List Text → Bool
is_seen v [] = false
is_seen v (w ∷ ws) = text_eq v w || is_seen v ws

unfoldable pub normalize_providers : List Text → List Text → List Text
unfolding text_eq trim_space to_lower
normalize_providers seen [] = []
normalize_providers seen (v ∷ vs) =
    let value = to_lower (trim_space v) in
    let skipped = is_empty value || is_seen value seen in
    let rest = normalize_providers (if skipped then seen else value ∷ seen) vs in
    if skipped then rest else value ∷ rest

-- A message that is there and is not null.
abbrev is_given : Text → Bool
is_given raw = not (is_empty raw) && not (text_eq raw (codes "null"))

abbrev override_generic : Option RawGeneric429 → Generic429Dynamic → Generic429Dynamic
override_generic none g = g
override_generic (some r) g = record {
  threshold = override r.threshold g.threshold;
  window = override r.window g.window;
  initial_cooldown = override r.initial_cooldown g.initial_cooldown;
  max_cooldown = override r.max_cooldown g.max_cooldown;
}

-- The flat names of the settings for a generic 429, which come after the nested ones.
abbrev override_flat : RawConfig → Generic429Dynamic → Generic429Dynamic
override_flat r g = record {
  threshold = override r.generic_429_threshold g.threshold;
  window = override r.generic_429_window g.window;
  initial_cooldown = override r.generic_429_initial_cooldown g.initial_cooldown;
  max_cooldown = override r.generic_429_max_cooldown g.max_cooldown;
}

abbrev pub override_guard : RawConfig → List Text → GuardDynamic → GuardDynamic
override_guard r groups g = record {
  mode = override r.mode g.mode;
  managed_auth = override r.managed_auth g.managed_auth;
  enforced_groups = groups;
  require_uniform_priority = override r.require_uniform_priority g.require_uniform_priority;
  probe_interval = override r.probe_interval g.probe_interval;
  evidence_max_age = override r.evidence_max_age g.evidence_max_age;
  generic_429 = override_flat r (override_generic r.generic_429 g.generic_429);
  half_open_lease = override r.half_open_lease g.half_open_lease;
  unknown_auth_policy = override r.unknown_auth_policy g.unknown_auth_policy;
  unknown_model_policy = override r.unknown_model_policy g.unknown_model_policy;
  state_path = override r.state_path g.state_path;
}

abbrev pub is_true : Option Bool → Bool
is_true none = false
is_true (some b) = b

abbrev pub cache_path : Option Text → Text → Text
cache_path none path = path
cache_path (some raw) path = if is_empty (trim_space raw) then path else trim_space raw

-- The providers and the groups of the document, or what there was before.
abbrev pub providers_or : Json → Text → List Text → Option (List Text)
providers_or j raw old =
    if is_given raw
    then (decode_enforced_groups j raw >>= λ providers. some (normalize_providers [] providers))
    else some old

abbrev pub groups_or : Json → Text → List Text → Option (List Text)
groups_or j raw old = if is_given raw then decode_enforced_groups j raw else some old

abbrev pub validated : Library → PluginConfig → Option PluginConfig
validated l c = if validate_plugin_config l c then some c else none

-- `applyTolerant`; an error is `none`, and there are never warnings.
unfoldable pub apply_tolerant : Library → Json → RawConfig → PluginConfig → Option PluginConfig
unfolding trim_space text_eq decode_enforced_groups normalize_providers to_config
    validate_plugin_config
apply_tolerant l j r c = if is_true r.auto_apply then none else (do
  providers ← providers_or j r.required_scheduler_for c.required_scheduler_for
  let g = guard_dynamic l c.guard
  groups ← groups_or j r.enforced_groups g.enforced_groups
  guard ← to_config l (override_guard r groups g)
  validated l (record c {
    enabled = override r.enabled c.enabled;
    state_cache_path = cache_path r.state_cache_path c.state_cache_path;
    required_scheduler_for = providers;
    guard = guard;
  }))

-- `LoadBytes`, for the document that `decodeRaw` gives.
unfoldable pub load_raw : Library → Json → Option RawConfig → Option PluginConfig
unfolding apply_tolerant default_plugin_config
load_raw l j document = do raw ← document; apply_tolerant l j raw default_plugin_config
