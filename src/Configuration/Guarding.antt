-- ===== src/Configuration/Guarding.antt =====
-- internal/config/config.go: the configuration of the guard, its invariants and its text form.
use cpa_antigravity_quota_gu.Prelude.{
  Bool, true, false, ◌&&◌, ◌||◌, not, Option, none, some, List, [], ◌∷◌, if◌then◌else◌, pos, ltb_ℤ,
  leb_ℤ, eq_ℤ, Text, text_eq, is_empty, trim_space, to_lower,
}
use cpa_antigravity_quota_gu.Guard.Types.{Duration, minute}
use cpa_antigravity_quota_gu.Configuration.Records.{
  Generic429Config, GuardConfig, GuardDynamic, Library, guard_mode_observe, guard_mode_enforce,
  managed_auth_all_antigravity, guard_policy_fail_closed,
}
use cpa_antigravity_quota_gu.Configuration.Paths.{validate_plugin_data_path}
use cpa_antigravity_quota_gu.Configuration.Groups.{parse_model_group}

-- The loop of `GuardConfig.Validate` over the groups, with those already seen.
abbrev pub is_in : Text → List Text → Bool
is_in g [] = false
is_in g (h ∷ hs) = text_eq g h || is_in g hs

unfoldable pub check_groups : List Text → List Text → Bool
unfolding parse_model_group text_eq
check_groups seen [] = true
check_groups seen (g ∷ gs) = elim (parse_model_group g) [
  | none ↦ false
  | some parsed ↦ not (is_empty g) && not (is_in parsed seen) && check_groups (parsed ∷ seen) gs
]

abbrev pub no_groups : List Text → Bool
no_groups [] = true
no_groups (_ ∷ _) = false

-- `GuardConfig.Validate`; true where the source returns no error.
unfoldable pub validate_guard_config : GuardConfig → Bool
unfolding text_eq check_groups validate_plugin_data_path
validate_guard_config c =
    not (not (text_eq c.mode guard_mode_observe) && not (text_eq c.mode guard_mode_enforce))
    && text_eq c.managed_auth managed_auth_all_antigravity
    && not (no_groups c.enforced_groups)
    && check_groups [] c.enforced_groups
    && not (text_eq c.mode guard_mode_enforce && not c.require_uniform_priority)
    && not (ltb_ℤ c.probe_interval (pos minute))
    && not (ltb_ℤ c.evidence_max_age c.probe_interval)
    && not (ltb_ℤ c.generic_429.threshold (pos 1) || ltb_ℤ (pos 10) c.generic_429.threshold)
    && not (leb_ℤ c.generic_429.window (pos 0))
    && not (leb_ℤ c.generic_429.initial_cooldown (pos 0))
    && not (ltb_ℤ c.generic_429.max_cooldown c.generic_429.initial_cooldown)
    && not (leb_ℤ c.half_open_lease (pos 0))
    && text_eq c.unknown_auth_policy guard_policy_fail_closed
    && text_eq c.unknown_model_policy guard_policy_fail_closed
    && validate_plugin_data_path c.state_path

-- `parsePositiveDuration`
abbrev pub positive_duration : Option Duration → Option Duration
positive_duration none = none
positive_duration (some d) = if leb_ℤ d (pos 0) then none else some d

unfoldable pub parse_positive_duration : Library → Text → Option Duration
unfolding trim_space
parse_positive_duration l value = positive_duration (l.parse_duration (trim_space value))

-- The loop of `toConfig` over the groups.
unfoldable pub parse_groups : List Text → Option (List Text)
unfolding parse_model_group trim_space
parse_groups [] = some []
parse_groups (g ∷ gs) = add (parse_model_group g) (is_empty (trim_space g)) (parse_groups gs)
  where
    add : Option Text → Bool → Option (List Text) → Option (List Text)
    add none empty rest = none
    add (some h) true rest = none
    add (some h) false none = none
    add (some h) false (some hs) = some (h ∷ hs)

infixl 5 ◌>>=◌
-- The rest of the function, after a call that may fail.
abbrev pub ◌>>=◌ {ℓ κ} : {A : Type ℓ} {B : Type κ} → Option A → (A → Option B) → Option B
none >>= next = none
some a >>= next = next a

abbrev pub trim_lower : Text → Text
trim_lower s = trim_space (to_lower s)

unfoldable pub checked_guard : GuardConfig → Option GuardConfig
unfolding validate_guard_config
checked_guard c = if validate_guard_config c then some c else none

-- The record that `toConfig` builds of what it has parsed.
unfoldable pub guard_of :
    GuardDynamic → List Text → Duration → Duration → Generic429Config → Duration → GuardConfig
unfolding trim_space to_lower
guard_of d groups probe_interval evidence_max_age generic half_open_lease = record {
  mode = trim_lower d.mode;
  managed_auth = trim_lower d.managed_auth;
  enforced_groups = groups;
  require_uniform_priority = d.require_uniform_priority;
  probe_interval = probe_interval;
  evidence_max_age = evidence_max_age;
  generic_429 = generic;
  half_open_lease = half_open_lease;
  unknown_auth_policy = trim_lower d.unknown_auth_policy;
  unknown_model_policy = trim_lower d.unknown_model_policy;
  state_path = trim_space d.state_path;
}

-- `GuardDynamic.toConfig`
unfoldable pub to_config : Library → GuardDynamic → Option GuardConfig
unfolding parse_groups parse_positive_duration guard_of checked_guard
to_config l d = do
  groups ← parse_groups d.enforced_groups
  probe_interval ← parse_positive_duration l d.probe_interval
  evidence_max_age ← parse_positive_duration l d.evidence_max_age
  window ← parse_positive_duration l d.generic_429.window
  initial_cooldown ← parse_positive_duration l d.generic_429.initial_cooldown
  max_cooldown ← parse_positive_duration l d.generic_429.max_cooldown
  half_open_lease ← parse_positive_duration l d.half_open_lease
  let generic : Generic429Config = record {
    threshold = d.generic_429.threshold;
    window = window;
    initial_cooldown = initial_cooldown;
    max_cooldown = max_cooldown;
  }
  checked_guard (guard_of d groups probe_interval evidence_max_age generic half_open_lease)

-- `GuardConfig.Dynamic`
abbrev pub guard_dynamic : Library → GuardConfig → GuardDynamic
guard_dynamic l c = record {
  mode = c.mode;
  managed_auth = c.managed_auth;
  enforced_groups = c.enforced_groups;
  require_uniform_priority = c.require_uniform_priority;
  probe_interval = l.duration_string c.probe_interval;
  evidence_max_age = l.duration_string c.evidence_max_age;
  generic_429 = record {
    threshold = c.generic_429.threshold;
    window = l.duration_string c.generic_429.window;
    initial_cooldown = l.duration_string c.generic_429.initial_cooldown;
    max_cooldown = l.duration_string c.generic_429.max_cooldown;
  };
  half_open_lease = l.duration_string c.half_open_lease;
  unknown_auth_policy = c.unknown_auth_policy;
  unknown_model_policy = c.unknown_model_policy;
  state_path = c.state_path;
}

-- `GuardDynamic.isZero`
unfoldable pub guard_is_zero : GuardDynamic → Bool
guard_is_zero d =
    is_empty d.mode
    && is_empty d.managed_auth
    && no_groups d.enforced_groups
    && not d.require_uniform_priority
    && is_empty d.probe_interval
    && is_empty d.evidence_max_age
    && (eq_ℤ d.generic_429.threshold (pos 0)
        && is_empty d.generic_429.window
        && is_empty d.generic_429.initial_cooldown
        && is_empty d.generic_429.max_cooldown)
    && is_empty d.half_open_lease
    && is_empty d.unknown_auth_policy
    && is_empty d.unknown_model_policy
    && is_empty d.state_path
