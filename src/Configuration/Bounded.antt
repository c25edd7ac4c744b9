-- ===== src/Configuration/Bounded.antt =====
-- internal/config/config.go: what ApplyTo returns is within its bounds.
use cpa_antigravity_quota_gu.Prelude.{
  ◌≡◌, refl, subst, Bool, true, false, ◌&&◌, not, Option, none, some, some_injective, arith,
  if◌then◌else◌, pos, ◌≤ℤ◌, ltb_ℤ, Text,
}
use cpa_antigravity_quota_gu.Guard.Types.{Duration, minute}
use cpa_antigravity_quota_gu.Configuration.Schedule.{validate_schedule_window}
use cpa_antigravity_quota_gu.Configuration.Records.{
  GuardConfig, PluginConfig, DynamicConfig, Library,
}
use cpa_antigravity_quota_gu.Configuration.Groups.{parse_model_group}
use cpa_antigravity_quota_gu.Configuration.Guarding.{◌>>=◌, to_config}
use cpa_antigravity_quota_gu.Configuration.Dynamic.{
  outside, tolerance_invalid, long_enough, guard_or_default, check_numbers, apply_to,
}
use cpa_antigravity_quota_gu.Configuration.Accepted.{GroupName, parse_model_group-GroupName}
use cpa_antigravity_quota_gu.Configuration.Safe.{
  SafeGuard, to_config-SafeGuard, negated, not_less, not_outside,
}

-- The numbers of the settings.
pub record InBounds (c : PluginConfig) : Type 0 where
  pub concurrency : (pos 1 ≤ℤ c.max_concurrency) × (c.max_concurrency ≤ℤ pos 32)
  pub change : (pos 0 ≤ℤ c.min_change) × (c.min_change ≤ℤ pos 100)
  pub tolerance : tolerance_invalid c.urgency_tolerance ≡ false
  pub cooldown :
      (pos 1 ≤ℤ c.rate_limit_cooldown_minutes) × (c.rate_limit_cooldown_minutes ≤ℤ pos 1440)
  pub normal : pos 1 ≤ℤ c.priority_rules.normal_start_priority
  pub boost : c.priority_rules.boost_start_priority ≤ℤ pos 999
  pub ordered : c.priority_rules.normal_start_priority ≤ℤ c.priority_rules.boost_start_priority
  pub capacity : (pos 2 ≤ℤ c.quota_sample_capacity) × (c.quota_sample_capacity ≤ℤ pos 30)
  pub window : validate_schedule_window c.schedule.window_start c.schedule.window_end ≡ true

-- What a change of the settings at run time leaves as it is, and what holds of the rest.
pub record Applied (base c : PluginConfig) : Type 0 where
  pub bounds : InBounds c
  pub never_applies : c.auto_apply ≡ false
  pub interval : pos minute ≤ℤ c.interval
  pub group : GroupName c.antigravity_model_group
  pub guard : SafeGuard c.guard
  pub enabled : c.enabled ≡ base.enabled
  pub cache : c.state_cache_path ≡ base.state_cache_path
  pub scheduler : c.required_scheduler_for ≡ base.required_scheduler_for

abbrev merged : DynamicConfig → PluginConfig → Duration → Text → GuardConfig → PluginConfig
merged d base interval group guard = record base {
  auto_apply = d.auto_apply;
  interval = interval;
  antigravity_model_group = group;
  max_concurrency = d.max_concurrency;
  min_change = d.min_change;
  urgency_tolerance = d.urgency_tolerance;
  rate_limit_cooldown_minutes = d.rate_limit_cooldown_minutes;
  quota_sample_capacity = d.quota_sample_capacity;
  ignore_disabled_host = d.ignore_disabled_host;
  priority_rules = d.priority_rules;
  schedule = d.schedule;
  guard = guard;
}

abbrev True : Bool → Type 0
True b = b ≡ true

eight_true :
    (a b c d e f g h i : Bool)
    → (a && b && c && d && e && f && g && h && i) ≡ true
    → True a × True b × True c × True d × True e × True f × True g × True h × True i
eight_true a b c d e f g h i p = ground arith

check_numbers-InBounds :
    (d : DynamicConfig) (base : PluginConfig) (t : Duration) (g : Text) (c : GuardConfig)
    → check_numbers d ≡ true
    → InBounds (merged d base t g c)
unfolding check_numbers
check_numbers-InBounds d base t g c h =
    let (concurrency, change, tolerance, cooldown, boost, normal, ordered, capacity, window) =
      eight_true (not (outside (pos 1) (pos 32) d.max_concurrency))
        (not (outside (pos 0) (pos 100) d.min_change)) (not (tolerance_invalid d.urgency_tolerance))
        (not (outside (pos 1) (pos 1440) d.rate_limit_cooldown_minutes))
        (not (outside (pos 1) (pos 999) d.priority_rules.boost_start_priority))
        (not (outside (pos 1) (pos 999) d.priority_rules.normal_start_priority))
        (not (ltb_ℤ d.priority_rules.boost_start_priority d.priority_rules.normal_start_priority))
        (not (outside (pos 2) (pos 30) d.quota_sample_capacity))
        (validate_schedule_window d.schedule.window_start d.schedule.window_end) h in
    record {
      concurrency = not_outside (pos 1) (pos 32) d.max_concurrency concurrency;
      change = not_outside (pos 0) (pos 100) d.min_change change;
      tolerance = negated (tolerance_invalid d.urgency_tolerance) tolerance;
      cooldown = not_outside (pos 1) (pos 1440) d.rate_limit_cooldown_minutes cooldown;
      normal = (not_outside (pos 1) (pos 999) d.priority_rules.normal_start_priority normal).0;
      boost = (not_outside (pos 1) (pos 999) d.priority_rules.boost_start_priority boost).1;
      ordered =
          not_less d.priority_rules.normal_start_priority d.priority_rules.boost_start_priority
            ordered;
      capacity = not_outside (pos 2) (pos 30) d.quota_sample_capacity capacity;
      window = window;
    }

long_enough-bound : (o : Option Duration) (t : Duration) → long_enough o ≡ some t → pos minute ≤ℤ t
long_enough-bound none t h = cc
long_enough-bound (some d) t h = ground arith

bind-Applied :
    (l : Library) (d : DynamicConfig) (base c : PluginConfig)
    → (raw : Option Duration) (interval : Option Duration) (group : Option Text)
      (guard : Option GuardConfig)
    → (auto numbers : Bool) → d.auto_apply ≡ auto
    → long_enough raw ≡ interval
    → parse_model_group d.antigravity_model_group ≡ group
    → check_numbers d ≡ numbers
    → to_config l (guard_or_default l d.guard) ≡ guard
    → ((if auto
          then none
          else (interval >>= λ t.
              group >>= λ g. (if numbers then guard else none) >>= λ c'. some (t, g, c')))
        >>= λ (t, g, c'). some (merged d base t g c'))
      ≡ some c
    → Applied base c
bind-Applied l d base c raw i g k true n ea ei eg en ek h = cc
bind-Applied l d base c raw none g k false n ea ei eg en ek h = cc
bind-Applied l d base c raw (some t) none k false n ea ei eg en ek h = cc
bind-Applied l d base c raw (some t) (some g) k false false ea ei eg en ek h = cc
bind-Applied l d base c raw (some t) (some g) none false true ea ei eg en ek h = cc
bind-Applied l d base c raw (some t) (some g) (some k) false true ea ei eg en ek h =
    subst (Applied base) (some_injective h) (record {
      bounds = check_numbers-InBounds d base t g k en;
      never_applies = ea;
      interval = long_enough-bound raw t ei;
      group = parse_model_group-GroupName d.antigravity_model_group g eg;
      guard = to_config-SafeGuard l (guard_or_default l d.guard) k ek;
      enabled = refl;
      cache = refl;
      scheduler = refl;
    })

-- A change of the settings at run time that is accepted gives numbers within their bounds, an
-- interval of a minute or more, a known model group, a schedule that parses and a safe guard; it
-- never turns the writing of priorities on, and leaves the switch of the plugin, the path of the
-- cache and the providers as they were.
pub apply_to-Applied :
    (l : Library) (d : DynamicConfig) (base c : PluginConfig)
    → apply_to l d base ≡ some c
    → Applied base c
unfolding apply_to
apply_to-Applied l d base c h =
    bind-Applied l d base c (l.parse_duration d.interval)
      (long_enough (l.parse_duration d.interval)) (parse_model_group d.antigravity_model_group)
      (to_config l (guard_or_default l d.guard)) d.auto_apply (check_numbers d) refl refl refl refl
      refl h
