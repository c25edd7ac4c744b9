-- ===== src/Configuration/Accepted.antt =====
-- internal/config/config.go: what a guard configuration that toConfig returns is known to satisfy.
use cpa_antigravity_quota_gu.Prelude.{
  ◌≡◌, refl, sym, ap, ◌∙◌, subst, ◌⊎◌, Bool, true, false, ◌||◌, inl, inr, Option, none, some,
  some_injective, List, [], ◌∷◌, Bool-cases, Option-cases, if◌then◌else◌, Text, codes, text_eq,
  is_empty, trim_space, All,
}
use cpa_antigravity_quota_gu.Guard.Types.{Duration}
use cpa_antigravity_quota_gu.Configuration.Records.{
  Generic429Config, GuardConfig, GuardDynamic, Library, model_group_gemini, model_group_claude_gpt,
}
use cpa_antigravity_quota_gu.Configuration.Groups.{normalize_model_group, parse_model_group}
use cpa_antigravity_quota_gu.Configuration.Guarding.{
  ◌>>=◌, validate_guard_config, parse_positive_duration, parse_groups, checked_guard, guard_of,
  to_config,
}

-- One of the two names of a group.
abbrev pub GroupName : Text → Type 0
GroupName g = (g ≡ model_group_gemini) ⊎ (g ≡ model_group_claude_gpt)

one_of_two :
    (a b : Bool) (x y g : Text)
    → (if a then some x else if b then some y else none) ≡ some g
    → (g ≡ x) ⊎ (g ≡ y)
one_of_two true b x y g h = inl (sym (some_injective h))
one_of_two false true x y g h = inr (sym (some_injective h))
one_of_two false false x y g h = cc

pub parse_model_group-GroupName : (s g : Text) → parse_model_group s ≡ some g → GroupName g
unfolding parse_model_group
parse_model_group-GroupName s g h =
    let n = normalize_model_group s in
    one_of_two (is_empty n || text_eq n model_group_gemini)
      (text_eq n model_group_claude_gpt
        || text_eq n (codes "claudegpt")
        || text_eq n (codes "claude-gpt")
        || text_eq n (codes "claude gpt")
        || text_eq n (codes "claude_and_gpt")
        || text_eq n (codes "claude-and-gpt")
        || text_eq n (codes "claude and gpt"))
      model_group_gemini model_group_claude_gpt g h

pub parse_model_group-fixed : (g : Text) → GroupName g → parse_model_group g ≡ some g
unfolding parse_model_group
parse_model_group-fixed g (inl e) = rw e refl
parse_model_group-fixed g (inr e) = rw e refl

pub parse_groups-GroupName : (gs hs : List Text) → parse_groups gs ≡ some hs → All GroupName hs
unfolding parse_groups
parse_groups-GroupName [] hs h = subst (All GroupName) (some_injective h) tt
parse_groups-GroupName (g ∷ gs) hs h = elim (Option-cases (parse_model_group g)) [
  | inl e ↦ absurd (cc (rw e at h))
  | inr (k, e) ↦ elim (Bool-cases (is_empty (trim_space g))) [
    | inl t ↦ absurd (cc (rw (e, t) at h))
    | inr f ↦ elim (Option-cases (parse_groups gs)) [
      | inl r ↦ absurd (cc (rw (e, f, r) at h))
      | inr (ks, r) ↦
          subst (All GroupName) (some_injective (rw (e, f, r) at h))
            (parse_model_group-GroupName g k e, parse_groups-GroupName gs ks r)
    ]
  ]
]

pub taken {ℓ} :
    {A : Type ℓ} (f : A → Bool) (b c : A)
    → (if f b then some b else none) ≡ some c
    → (b ≡ c) × (f c ≡ true)
taken f b c h = elim (Bool-cases (f b)) [
  | inl e ↦ let same = some_injective (rw e at h) in (same, sym (ap (λ x. f x) same) ∙ e)
  | inr e ↦ absurd (cc (rw e at h))
]

checked_guard-some :
    (b c : GuardConfig) → checked_guard b ≡ some c → (b ≡ c) × (validate_guard_config c ≡ true)
unfolding checked_guard
checked_guard-some b c h = taken validate_guard_config b c h

-- What toConfig has parsed, and that the result passes the checks.
pub record Parsed (d : GuardDynamic) (c : GuardConfig) : Type 0 where
  pub groups : parse_groups d.enforced_groups ≡ some c.enforced_groups
  pub path : trim_space d.state_path ≡ c.state_path
  pub uniform : d.require_uniform_priority ≡ c.require_uniform_priority
  pub threshold : d.generic_429.threshold ≡ c.generic_429.threshold
  pub valid : validate_guard_config c ≡ true

bind-Parsed :
    (d : GuardDynamic) (c : GuardConfig)
    → (groups : Option (List Text)) (p e w i m h : Option Duration)
    → parse_groups d.enforced_groups ≡ groups
    → (groups >>= λ gs. p >>= λ p'. e >>= λ e'. w >>= λ w'. i >>= λ i'. m >>= λ m'. h >>= λ h'.
        checked_guard (
          guard_of d gs p' e'
            (record {
              threshold = d.generic_429.threshold;
              window = w';
              initial_cooldown = i';
              max_cooldown = m';
            })
            h'))
      ≡ some c
    → Parsed d c
unfolding guard_of
bind-Parsed d c none p e w i m h r t = cc
bind-Parsed d c (some gs) none e w i m h r t = cc
bind-Parsed d c (some gs) (some p) none w i m h r t = cc
bind-Parsed d c (some gs) (some p) (some e) none i m h r t = cc
bind-Parsed d c (some gs) (some p) (some e) (some w) none m h r t = cc
bind-Parsed d c (some gs) (some p) (some e) (some w) (some i) none h r t = cc
bind-Parsed d c (some gs) (some p) (some e) (some w) (some i) (some m) none r t = cc
bind-Parsed d c (some gs) (some p) (some e) (some w) (some i) (some m) (some h) r t =
    let generic : Generic429Config = record {
      threshold = d.generic_429.threshold;
      window = w;
      initial_cooldown = i;
      max_cooldown = m;
    } in
    let (same, valid) = checked_guard-some (guard_of d gs p e generic h) c t in
    record {
      groups = r ∙ ap (λ x. some x.enforced_groups) same;
      path = ap (λ x. x.state_path) same;
      uniform = ap (λ x. x.require_uniform_priority) same;
      threshold = ap (λ x. x.generic_429.threshold) same;
      valid = valid;
    }

pub to_config-Parsed :
    (l : Library) (d : GuardDynamic) (c : GuardConfig) → to_config l d ≡ some c → Parsed d c
unfolding to_config
to_config-Parsed l d c h =
    bind-Parsed d c (parse_groups d.enforced_groups) (parse_positive_duration l d.probe_interval)
      (parse_positive_duration l d.evidence_max_age)
      (parse_positive_duration l d.generic_429.window)
      (parse_positive_duration l d.generic_429.initial_cooldown)
      (parse_positive_duration l d.generic_429.max_cooldown)
      (parse_positive_duration l d.half_open_lease) refl h
