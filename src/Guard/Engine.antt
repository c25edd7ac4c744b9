-- ===== src/Guard/Engine.antt =====
-- internal/guard/engine.go: the engine's state, its configuration, its roster of identities.
-- `wall` stands for what time.Now returns, `sha256_hex` for the digest of package crypto/sha256.
use cpa_antigravity_quota_gu.Prelude.{
  ℕ, ◌+◌, Bool, true, false, ◌&&◌, ◌||◌, not, Option, none, [], ◌∷◌, ◌++◌, if◌then◌else◌, ℤ, pos,
  ltb_ℤ, leb_ℤ, eq_ℤ, u64, Text, Dict,
}
use cpa_antigravity_quota_gu.Guard.Types.{
  Time, is_zero, ModelGroup, group_text, Policy, unset_policy, fail_closed, fail_open, other_policy,
  invalid_config, Fallible, returns, fails,
}
use cpa_antigravity_quota_gu.Guard.Records.{
  Config, default_config, Entry, Metrics, no_metrics, SelectionEvent,
}

-- `Engine` without its mutex: each operation runs as one step.
pub record Engine : Type 0 where
  pub config : Config
  pub entries : Dict Entry
  pub auth_by_id : Dict Text
  pub cursors : Dict ℕ
  pub metrics : Metrics
  pub last_pick : Option SelectionEvent
  pub updated : Time
  pub dirty : ℕ
  pub generation : ℕ

abbrev or_default : ℤ → ℤ → ℤ
or_default x d = if eq_ℤ x (pos 0) then d else x

abbrev pub or_policy : Policy → Policy → Policy
or_policy unset_policy d = d
or_policy fail_closed d = fail_closed
or_policy fail_open d = fail_open
or_policy (other_policy s) d = other_policy s

unfoldable pub with_config_defaults : Config → Config
unfolding default_config
with_config_defaults c = record {
  generic_429_threshold = or_default c.generic_429_threshold d.generic_429_threshold;
  generic_429_window = or_default c.generic_429_window d.generic_429_window;
  generic_429_initial_cooldown =
      or_default c.generic_429_initial_cooldown d.generic_429_initial_cooldown;
  generic_429_max_cooldown = or_default c.generic_429_max_cooldown d.generic_429_max_cooldown;
  half_open_lease = or_default c.half_open_lease d.half_open_lease;
  evidence_max_age = or_default c.evidence_max_age d.evidence_max_age;
  unknown_auth_policy = or_policy c.unknown_auth_policy d.unknown_auth_policy;
  unknown_model_policy = or_policy c.unknown_model_policy d.unknown_model_policy;
}
  where
    d : Config
    d = default_config

abbrev pub valid_policy : Policy → Bool
valid_policy fail_closed = true
valid_policy fail_open = true
valid_policy _ = false

-- `validateConfig`; true where the source returns no error.
unfoldable pub validate_config : Config → Bool
validate_config c =
    not (
      ltb_ℤ c.generic_429_threshold (pos 1)
      || leb_ℤ c.generic_429_window (pos 0)
      || leb_ℤ c.generic_429_initial_cooldown (pos 0)
      || leb_ℤ c.generic_429_max_cooldown (pos 0)
      || ltb_ℤ c.generic_429_max_cooldown c.generic_429_initial_cooldown
      || leb_ℤ c.half_open_lease (pos 0)
      || leb_ℤ c.evidence_max_age (pos 0))
    && not (not (valid_policy c.unknown_auth_policy) || not (valid_policy c.unknown_model_policy))

abbrev pub initial_engine : Config → Engine
initial_engine c = record {
  config = c;
  entries = [];
  auth_by_id = [];
  cursors = [];
  metrics = no_metrics;
  last_pick = none;
  updated = 0;
  dirty = 0;
  generation = 0;
}

-- `New`
unfoldable pub new_engine : Config → Fallible Engine
unfolding with_config_defaults validate_config
new_engine config =
    let c = with_config_defaults config in
    if validate_config c then returns (initial_engine c) else fails invalid_config

unfoldable pub entry_key : Text → ModelGroup → Text
entry_key auth_index group = auth_index ++ (0 ∷ group_text group)

-- `markDirtyLocked`
unfoldable pub mark_dirty : Time → Time → Engine → Engine
mark_dirty wall at e = record e {
  updated = if is_zero at then wall else at;
  dirty = u64 (e.dirty + 1);
  generation = u64 (e.generation + 1);
}
