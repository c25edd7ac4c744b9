-- ===== src/Configuration/RoundTrip.antt =====
-- internal/config/config.go: the text form of a guard configuration gives it back.
use cpa_antigravity_quota_gu.Prelude.{
  ◌≡◌, refl, sym, ap, ◌∙◌, ◌⊎◌, true, inl, inr, none, some, List, [], ◌∷◌, arith, if◌then◌else◌,
  pos, ◌≤ℤ◌, ◌<ℤ◌, Text, trim_space, trim_space-trim_space, to_lower, All,
}
use cpa_antigravity_quota_gu.Guard.Types.{Duration, minute}
use cpa_antigravity_quota_gu.Configuration.Records.{
  GuardConfig, GuardDynamic, Library, guard_mode_observe, guard_mode_enforce,
  managed_auth_all_antigravity, guard_policy_fail_closed,
}
use cpa_antigravity_quota_gu.Configuration.Guarding.{
  parse_positive_duration, parse_groups, checked_guard, guard_of, to_config, guard_dynamic,
  trim_lower, validate_guard_config,
}
use cpa_antigravity_quota_gu.Configuration.Accepted.{
  GroupName, parse_model_group-fixed, to_config-Parsed,
}
use cpa_antigravity_quota_gu.Configuration.Safe.{SafeGuard, to_config-SafeGuard}

-- The parser of package time reads what the printer writes, between white space, of a positive
-- duration.
abbrev pub Reads : Library → Type 0
Reads l = (d : Duration) → pos 0 <ℤ d → l.parse_duration (trim_space (l.duration_string d)) ≡ some d

parse_groups-fixed : (gs : List Text) → All GroupName gs → parse_groups gs ≡ some gs
unfolding parse_groups
parse_groups-fixed [] n = refl
parse_groups-fixed (g ∷ gs) (inl e, ns) =
    rw (parse_model_group-fixed g (inl e)) (rw (parse_groups-fixed gs ns) (rw e refl))
parse_groups-fixed (g ∷ gs) (inr e, ns) =
    rw (parse_model_group-fixed g (inr e)) (rw (parse_groups-fixed gs ns) (rw e refl))

parse_positive_duration-string :
    (l : Library) (d : Duration)
    → Reads l
    → pos 0 <ℤ d
    → parse_positive_duration l (l.duration_string d) ≡ some d
unfolding parse_positive_duration
parse_positive_duration-string l d r p = rw (r d p) (ground arith)

-- A record whose texts are replaced by themselves.
same_texts :
    (c : GuardConfig) (mode managed auth model path : Text)
    → mode ≡ c.mode
    → managed ≡ c.managed_auth
    → auth ≡ c.unknown_auth_policy
    → model ≡ c.unknown_model_policy
    → path ≡ c.state_path
    → record c {
      mode = mode;
      managed_auth = managed;
      unknown_auth_policy = auth;
      unknown_model_policy = model;
      state_path = path;
    }
      ≡ c
same_texts c mode managed auth model path a b d e f = cc

trim_lower-fixed : (s k : Text) → trim_lower k ≡ k → s ≡ k → trim_lower s ≡ s
trim_lower-fixed s k h e = ap (λ x. trim_lower x) e ∙ h ∙ sym e

mode-fixed : (s : Text) → (s ≡ guard_mode_observe) ⊎ (s ≡ guard_mode_enforce) → trim_lower s ≡ s
unfolding trim_space to_lower
mode-fixed s (inl e) = trim_lower-fixed s guard_mode_observe refl e
mode-fixed s (inr e) = trim_lower-fixed s guard_mode_enforce refl e

managed-fixed : (s : Text) → s ≡ managed_auth_all_antigravity → trim_lower s ≡ s
unfolding trim_space to_lower
managed-fixed s e = trim_lower-fixed s managed_auth_all_antigravity refl e

policy-fixed : (s : Text) → s ≡ guard_policy_fail_closed → trim_lower s ≡ s
unfolding trim_space to_lower
policy-fixed s e = trim_lower-fixed s guard_policy_fail_closed refl e

-- The texts of a safe configuration are already in their normal form.
guard_of-fixed :
    (l : Library) (c : GuardConfig)
    → SafeGuard c
    → trim_space c.state_path ≡ c.state_path
    → guard_of
        (guard_dynamic l c)
        c.enforced_groups
        c.probe_interval
        c.evidence_max_age
        c.generic_429
        c.half_open_lease
      ≡ c
unfolding guard_of
guard_of-fixed l c h p =
    same_texts c (trim_lower c.mode) (trim_lower c.managed_auth) (trim_lower c.unknown_auth_policy)
      (trim_lower c.unknown_model_policy) (trim_space c.state_path) (mode-fixed c.mode h.mode)
      (managed-fixed c.managed_auth h.managed) (policy-fixed c.unknown_auth_policy h.unknown_auth)
      (policy-fixed c.unknown_model_policy h.unknown_model) p

checked_guard-valid : (c : GuardConfig) → validate_guard_config c ≡ true → checked_guard c ≡ some c
unfolding checked_guard
checked_guard-valid c h = ap (λ b. if b then some c else none) h

at_least_positive : (d : Duration) → pos minute ≤ℤ d → pos 0 <ℤ d
at_least_positive d h = omega arith

longer_positive : (d e : Duration) → pos 0 <ℤ d → d ≤ℤ e → pos 0 <ℤ e
longer_positive d e h k = omega arith

to_config-guard_dynamic :
    (l : Library) (c : GuardConfig)
    → Reads l
    → SafeGuard c
    → trim_space c.state_path ≡ c.state_path
    → validate_guard_config c ≡ true
    → to_config l (guard_dynamic l c) ≡ some c
unfolding to_config
to_config-guard_dynamic l c r h p v =
    let probe = at_least_positive c.probe_interval h.probe_interval in
    let read = parse_positive_duration-string l in
    let g = c.generic_429 in
    rw (parse_groups-fixed c.enforced_groups h.group_names) (
      rw (read c.probe_interval r probe) (
        rw
          (read c.evidence_max_age r
            (longer_positive c.probe_interval c.evidence_max_age probe h.evidence_max_age))
          (rw (read g.window r h.window) (
            rw (read g.initial_cooldown r h.initial_cooldown) (
              rw
                (read g.max_cooldown r (
                  longer_positive g.initial_cooldown g.max_cooldown h.initial_cooldown
                    h.max_cooldown))
                (rw (read c.half_open_lease r h.half_open_lease) (
                  ap (λ x. checked_guard x) (guard_of-fixed l c h p)
                  ∙ checked_guard-valid c v)))))))

-- A guard configuration that toConfig has returned is returned again when toConfig reads its text
-- form, if the parser of durations reads what the printer writes.
pub to_config-Dynamic :
    (l : Library) (d : GuardDynamic) (c : GuardConfig)
    → Reads l
    → to_config l d ≡ some c
    → to_config l (guard_dynamic l c) ≡ some c
to_config-Dynamic l d c r h =
    let parsed = to_config-Parsed l d c h in
    to_config-guard_dynamic l c r (to_config-SafeGuard l d c h)
      (sym (ap (λ s. trim_space s) parsed.path) ∙ trim_space-trim_space d.state_path ∙ parsed.path)
      parsed.valid
