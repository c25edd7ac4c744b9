-- ===== src/Configuration/Safe.antt =====
-- internal/config/config.go: the invariants of a guard configuration that toConfig returns.
use cpa_antigravity_quota_gu.Prelude.{
  ◌≡◌, refl, ◌⊎◌, Bool, true, false, ◌&&◌, ◌||◌, not, some, List, [], ◌∷◌, arith, ℤ, pos, ◌≤ℤ◌,
  ◌<ℤ◌, ltb_ℤ, leb_ℤ, Text, text_eq, text_eq_iff, All,
}
use cpa_antigravity_quota_gu.Guard.Types.{minute}
use cpa_antigravity_quota_gu.Configuration.Records.{
  GuardConfig, GuardDynamic, Library, guard_mode_observe, guard_mode_enforce,
  managed_auth_all_antigravity, guard_policy_fail_closed,
}
use cpa_antigravity_quota_gu.Configuration.Paths.{
  path_clean, normalized_path, validate_plugin_data_path,
}
use cpa_antigravity_quota_gu.Configuration.Contained.{
  Contained, validate_plugin_data_path-Contained,
}
use cpa_antigravity_quota_gu.Configuration.Guarding.{
  is_in, no_groups, check_groups, validate_guard_config, to_config,
}
use cpa_antigravity_quota_gu.Configuration.Accepted.{
  GroupName, parse_model_group-fixed, parse_groups-GroupName, to_config-Parsed,
}

-- Group names that occur once.
abbrev pub Once : List Text → Type 0
Once [] = Unit
Once (g ∷ gs) = (is_in g gs ≡ false) × Once gs

check_groups-fresh :
    (h : Text) (seen gs : List Text)
    → All GroupName gs
    → check_groups seen gs ≡ true
    → is_in h seen ≡ true
    → is_in h gs ≡ false
unfolding check_groups
check_groups-fresh h seen [] n c i = refl
check_groups-fresh h seen (g ∷ gs) (n, ns) c i =
    let fixed = parse_model_group-fixed g n in
    let c' = rw (fixed, check_groups) at c in
    let rest = check_groups-fresh h (g ∷ seen) gs ns (ground arith) (ground arith) in
    ground (arith, text_eq_iff h g)

check_groups-Once : (seen gs : List Text) → All GroupName gs → check_groups seen gs ≡ true → Once gs
unfolding check_groups
check_groups-Once seen [] n c = tt
check_groups-Once seen (g ∷ gs) (n, ns) c =
    let fixed = parse_model_group-fixed g n in
    let c' = rw (fixed, check_groups) at c in
    (
      check_groups-fresh g (g ∷ seen) gs ns (ground arith) (ground (arith, text_eq_iff g g)),
      check_groups-Once (g ∷ seen) gs ns (ground arith),
    )

-- The invariants of the guard's configuration.
pub record SafeGuard (c : GuardConfig) : Type 0 where
  pub mode : (c.mode ≡ guard_mode_observe) ⊎ (c.mode ≡ guard_mode_enforce)
  pub managed : c.managed_auth ≡ managed_auth_all_antigravity
  pub some_group : no_groups c.enforced_groups ≡ false
  pub group_names : All GroupName c.enforced_groups
  pub once : Once c.enforced_groups
  pub uniform : c.mode ≡ guard_mode_enforce → c.require_uniform_priority ≡ true
  pub probe_interval : pos minute ≤ℤ c.probe_interval
  pub evidence_max_age : c.probe_interval ≤ℤ c.evidence_max_age
  pub threshold : (pos 1 ≤ℤ c.generic_429.threshold) × (c.generic_429.threshold ≤ℤ pos 10)
  pub window : pos 0 <ℤ c.generic_429.window
  pub initial_cooldown : pos 0 <ℤ c.generic_429.initial_cooldown
  pub max_cooldown : c.generic_429.initial_cooldown ≤ℤ c.generic_429.max_cooldown
  pub half_open_lease : pos 0 <ℤ c.half_open_lease
  pub unknown_auth : c.unknown_auth_policy ≡ guard_policy_fail_closed
  pub unknown_model : c.unknown_model_policy ≡ guard_policy_fail_closed
  pub path : Contained (path_clean (normalized_path c.state_path))

abbrev True : Bool → Type 0
True b = b ≡ true

all_true :
    (a b c d e f g h i j k l m n o : Bool)
    → (a && b && c && d && e && f && g && h && i && j && k && l && m && n && o) ≡ true
    → True a
      × True b
      × True c
      × True d
      × True e
      × True f
      × True g
      × True h
      × True i
      × True j
      × True k
      × True l
      × True m
      × True n
      × True o
all_true a b c d e f g h i j k l m n o p = ground arith

pub not_less : (a b : ℤ) → not (ltb_ℤ b a) ≡ true → a ≤ℤ b
not_less a b h = ground arith

not_at_most : (a b : ℤ) → not (leb_ℤ b a) ≡ true → a <ℤ b
not_at_most a b h = ground arith

pub not_outside : (a b n : ℤ) → not (ltb_ℤ n a || ltb_ℤ b n) ≡ true → (a ≤ℤ n) × (n ≤ℤ b)
not_outside a b n h = ground arith

pub negated : (b : Bool) → not b ≡ true → b ≡ false
negated b h = ground arith

one_of_texts :
    (s a b : Text) → not (not (text_eq s a) && not (text_eq s b)) ≡ true → (s ≡ a) ⊎ (s ≡ b)
one_of_texts s a b h = ground (arith, text_eq_iff s a, text_eq_iff s b)

implied : (s a : Text) (b : Bool) → not (text_eq s a && not b) ≡ true → s ≡ a → b ≡ true
implied s a b h e = ground (arith, text_eq_iff s a)

validated-SafeGuard :
    (c : GuardConfig)
    → All GroupName c.enforced_groups
    → validate_guard_config c ≡ true
    → SafeGuard c
unfolding validate_guard_config
validated-SafeGuard c names h =
    let (
      mode, managed, grouped, checked, uniform, probe, age, threshold, window, initial, maximal,
      lease, auth, model, path,
    ) =
      all_true
        (not (not (text_eq c.mode guard_mode_observe) && not (text_eq c.mode guard_mode_enforce)))
        (text_eq c.managed_auth managed_auth_all_antigravity) (not (no_groups c.enforced_groups))
        (check_groups [] c.enforced_groups)
        (not (text_eq c.mode guard_mode_enforce && not c.require_uniform_priority))
        (not (ltb_ℤ c.probe_interval (pos minute)))
        (not (ltb_ℤ c.evidence_max_age c.probe_interval))
        (not (ltb_ℤ c.generic_429.threshold (pos 1) || ltb_ℤ (pos 10) c.generic_429.threshold))
        (not (leb_ℤ c.generic_429.window (pos 0)))
        (not (leb_ℤ c.generic_429.initial_cooldown (pos 0)))
        (not (ltb_ℤ c.generic_429.max_cooldown c.generic_429.initial_cooldown))
        (not (leb_ℤ c.half_open_lease (pos 0)))
        (text_eq c.unknown_auth_policy guard_policy_fail_closed)
        (text_eq c.unknown_model_policy guard_policy_fail_closed)
        (validate_plugin_data_path c.state_path) h in
    record {
      mode = one_of_texts c.mode guard_mode_observe guard_mode_enforce mode;
      managed = (text_eq_iff c.managed_auth managed_auth_all_antigravity).0 managed;
      some_group = negated (no_groups c.enforced_groups) grouped;
      group_names = names;
      once = check_groups-Once [] c.enforced_groups names checked;
      uniform = implied c.mode guard_mode_enforce c.require_uniform_priority uniform;
      probe_interval = not_less (pos minute) c.probe_interval probe;
      evidence_max_age = not_less c.probe_interval c.evidence_max_age age;
      threshold = not_outside (pos 1) (pos 10) c.generic_429.threshold threshold;
      window = not_at_most (pos 0) c.generic_429.window window;
      initial_cooldown = not_at_most (pos 0) c.generic_429.initial_cooldown initial;
      max_cooldown = not_less c.generic_429.initial_cooldown c.generic_429.max_cooldown maximal;
      half_open_lease = not_at_most (pos 0) c.half_open_lease lease;
      unknown_auth = (text_eq_iff c.unknown_auth_policy guard_policy_fail_closed).0 auth;
      unknown_model = (text_eq_iff c.unknown_model_policy guard_policy_fail_closed).0 model;
      path = validate_plugin_data_path-Contained c.state_path path;
    }

-- A guard configuration that is made from its text form is safe: the mode is observe or enforce and
-- enforce requires uniform priorities; the groups are gemini and claude_gpt, one or both, each once;
-- both policies are fail_closed; the probe interval is at least a minute and at most the age up to
-- which evidence counts; threshold, window, cooldowns and lease are in their bounds; and the path of
-- the state file, with its backslashes read as slashes and in its shortest form, is inside of the
-- directory of the plugin. Of the path itself, where backslashes are ordinary characters, it says
-- nothing.
pub to_config-SafeGuard :
    (l : Library) (d : GuardDynamic) (c : GuardConfig) → to_config l d ≡ some c → SafeGuard c
to_config-SafeGuard l d c h =
    let parsed = to_config-Parsed l d c h in
    validated-SafeGuard c (parse_groups-GroupName d.enforced_groups c.enforced_groups parsed.groups)
      parsed.valid
