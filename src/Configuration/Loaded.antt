-- ===== src/Configuration/Loaded.antt =====
-- internal/config/config.go: what a startup configuration that loads is known to satisfy.
use cpa_antigravity_quota_gu.Prelude.{
  ◌≡◌, ◌≢◌, refl, sym, ap, ◌∙◌, subst, Bool, true, false, ◌&&◌, not, inl, inr, Option, none, some,
  List, arith, Bool-cases, if◌then◌else◌, Text, text_eq_iff, codes,
}
use cpa_antigravity_quota_gu.Configuration.Records.{
  GuardConfig, GuardDynamic, PluginConfig, Library, default_plugin_config,
}
use cpa_antigravity_quota_gu.Configuration.Paths.{
  path_clean, is_dot, normalized_path, split_at, validate_plugin_data_path,
}
use cpa_antigravity_quota_gu.Configuration.Contained.{
  Contained, validate_plugin_data_path-Contained,
}
use cpa_antigravity_quota_gu.Configuration.Guarding.{
  ◌>>=◌, guard_dynamic, validate_guard_config, to_config,
}
use cpa_antigravity_quota_gu.Configuration.Dynamic.{validate_plugin_config}
use cpa_antigravity_quota_gu.Configuration.Raw.{
  is_true, override, override_guard, cache_path, providers_or, groups_or, validated, Json,
  RawConfig, apply_tolerant, load_raw,
}
use cpa_antigravity_quota_gu.Configuration.Accepted.{taken}
use cpa_antigravity_quota_gu.Configuration.Safe.{SafeGuard, to_config-SafeGuard}

abbrev pub cache_form : PluginConfig → Text
cache_form c = path_clean (normalized_path c.state_cache_path)

abbrev pub state_form : PluginConfig → Text
state_form c = path_clean (normalized_path c.guard.state_path)

pub record Loaded (l : Library) (c : PluginConfig) : Type 0 where
  pub never_applies : c.auto_apply ≡ false
  pub guard : SafeGuard c.guard
  pub cache : Contained (path_clean (normalized_path c.state_cache_path))
  pub two_files :
      l.equal_fold
        (path_clean (normalized_path c.state_cache_path))
        (path_clean (normalized_path c.guard.state_path))
      ≡ false

Contained-not_dot : (path : Text) → Contained path → is_dot path ≡ false
unfolding split_at
Contained-not_dot path h = elim (Bool-cases (is_dot path)) [
  | inr f ↦ f
  | inl t ↦
      let dot = (text_eq_iff path (codes ".")).0 t in
      absurd (cc (ap (λ p. split_at 47 p) (sym dot) ∙ h.components))
]

four_true :
    (auto path dot fold guard : Bool)
    → (not auto && path && not (not dot && fold) && guard) ≡ true
    → dot ≡ false
    → (auto ≡ false) × (path ≡ true) × (fold ≡ false)
four_true auto path dot fold guard h d = ground arith

path_true : (auto path same guard : Bool) → (not auto && path && same && guard) ≡ true → path ≡ true
path_true auto path same guard h = ground arith

validated-Loaded :
    (l : Library) (c : PluginConfig)
    → SafeGuard c.guard
    → validate_plugin_config l c ≡ true
    → Loaded l c
unfolding validate_plugin_config
validated-Loaded l c safe h =
    let legacy = cache_form c in
    let fold = l.equal_fold legacy (state_form c) in
    let path = validate_plugin_data_path c.state_cache_path in
    let guard = validate_guard_config c.guard in
    let cache =
      validate_plugin_data_path-Contained c.state_cache_path
        (path_true c.auto_apply path (not (not (is_dot legacy) && fold)) guard h) in
    let (never, accepted, two) =
      four_true c.auto_apply path (is_dot legacy) fold guard h (Contained-not_dot legacy cache) in
    record { never_applies = never; guard = safe; cache = cache; two_files = two }

bind-Loaded :
    (l : Library) (r : RawConfig) (b c : PluginConfig) (g : GuardDynamic)
    → (auto : Bool) (providers : Option (List Text)) (groups : Option (List Text))
    → (if auto
        then none
        else (providers >>= λ ps. groups >>= λ gs. to_config l (override_guard r gs g) >>= λ guard.
            validated l (record b {
              enabled = override r.enabled b.enabled;
              state_cache_path = cache_path r.state_cache_path b.state_cache_path;
              required_scheduler_for = ps;
              guard = guard;
            })))
      ≡ some c
    → Loaded l c
bind-Loaded l r b c g true ps gs h = cc
bind-Loaded l r b c g false none gs h = cc
bind-Loaded l r b c g false (some ps) none h = cc
bind-Loaded l r b c g false (some ps) (some gs) h =
    last (to_config l (override_guard r gs g)) (to_config-SafeGuard l (override_guard r gs g)) h
  where
    last :
        (o : Option GuardConfig)
        → ((k : GuardConfig) → o ≡ some k → SafeGuard k)
        → (o >>= λ guard. validated l (record b {
          enabled = override r.enabled b.enabled;
          state_cache_path = cache_path r.state_cache_path b.state_cache_path;
          required_scheduler_for = ps;
          guard = guard;
        }))
          ≡ some c
        → Loaded l c
    last none safe h = cc
    last (some k) safe h =
        let d : PluginConfig = record b {
          enabled = override r.enabled b.enabled;
          state_cache_path = cache_path r.state_cache_path b.state_cache_path;
          required_scheduler_for = ps;
          guard = k;
        } in
        let (same, valid) = taken (validate_plugin_config l) d c h in
        validated-Loaded l c (subst (λ x. SafeGuard x.guard) same (safe k refl)) valid

pub apply_tolerant-Loaded :
    (l : Library) (j : Json) (r : RawConfig) (b c : PluginConfig)
    → apply_tolerant l j r b ≡ some c
    → Loaded l c
unfolding apply_tolerant
apply_tolerant-Loaded l j r b c h =
    let g = guard_dynamic l b.guard in
    bind-Loaded l r b c g (is_true r.auto_apply)
      (providers_or j r.required_scheduler_for b.required_scheduler_for)
      (groups_or j r.enforced_groups g.enforced_groups) h

folded_apart :
    (l : Library) (s t : Text)
    → ((u : Text) → l.equal_fold u u ≡ true)
    → l.equal_fold s t ≡ false
    → s ≢ t
folded_apart l s t folds apart same =
    let both : ◌≡◌ {A = Bool} true false =
      sym (folds s) ∙ (ap (λ u. l.equal_fold s u) same ∙ apart) in
    absurd (cc both)

-- Let every text be equal to itself under the case folding of package strings. Then a startup
-- configuration that loads never writes priorities and has a safe guard; the paths of the cache of
-- quotas and of the state of the guard, each with its backslashes read as slashes and in its
-- shortest form, are different texts, also under that folding, and the components of both lead into
-- the directory of the plugin. Of the paths themselves, where backslashes are ordinary characters,
-- it says nothing.
pub load_raw-Loaded :
    (l : Library) (j : Json) (document : Option RawConfig) (c : PluginConfig)
    → ((s : Text) → l.equal_fold s s ≡ true)
    → load_raw l j document ≡ some c
    → Loaded l c × (cache_form c ≢ state_form c)
unfolding load_raw
load_raw-Loaded l j none c folds h = cc
load_raw-Loaded l j (some r) c folds h =
    let loaded = apply_tolerant-Loaded l j r default_plugin_config c h in
    (loaded, folded_apart l (cache_form c) (state_form c) folds loaded.two_files)
