-- ===== src/Guard/Invariant/Engines.antt =====
-- internal/guard: every engine that the operations reach is valid.
use cpa_antigravity_quota_gu.Prelude.{
  ℕ, ◌≡◌, refl, sym, subst, Bool, true, false, ◌&&◌, ◌||◌, not, inl, inr, arith, ℤ, pos, ltb_ℤ,
  leb_ℤ, ◌<ℤ◌, ◌≤ℤ◌, Text, Bool-cases,
}
use cpa_antigravity_quota_gu.Guard.Types.{
  Time, ModelGroup, returns, returns_injective, fails_ne_returns,
}
use cpa_antigravity_quota_gu.Guard.Records.{
  Config, Entry, PickRequest, UsageObservation, QuotaEvidence,
}
use cpa_antigravity_quota_gu.Guard.Reset.{Parsers}
use cpa_antigravity_quota_gu.Guard.Engine.{
  Engine, initial_engine, valid_policy, new_engine, validate_config, with_config_defaults,
}
use cpa_antigravity_quota_gu.Guard.Observe.{
  observe_usage, normalized_observation, observe_entry, observe_success, observe_explicit,
  observe_generic, count_generic,
}
use cpa_antigravity_quota_gu.Guard.Evidence.{
  normalized_evidence, apply_quota_evidence, apply_evidence,
}
use cpa_antigravity_quota_gu.Guard.Breaker.{open_entry, close_entry}
use cpa_antigravity_quota_gu.Guard.Pick.{
  normalized_request, pick, manual_half_open, lease_entry, manual_entry,
}
use cpa_antigravity_quota_gu.Guard.Invariant.{IsValid, IsValidConfig, IsValidEngine}
use cpa_antigravity_quota_gu.Guard.Invariant.Entries.{
  observe_entry-IsValid, apply_evidence-IsValid, lease_entry-IsValid, manual_entry-IsValid,
}
use cpa_antigravity_quota_gu.Guard.Edits.{
  Replaces, Edit-IsValidEngine, observe_usage-Edit, apply_quota_evidence-Edit, after,
}
use cpa_antigravity_quota_gu.Guard.Edits.Picks.{pick-Edit, manual_half_open-Edit}

none_of_seven :
    (a b c d f g h w : Bool)
    → (not (a || b || c || d || f || g || h) && w) ≡ true
    → (a ≡ false)
      × (b ≡ false)
      × (c ≡ false)
      × (d ≡ false)
      × (f ≡ false)
      × (g ≡ false)
      × (h ≡ false)
none_of_seven false false false false false false false w e =
    (refl, refl, refl, refl, refl, refl, refl)
none_of_seven _ _ _ _ _ _ _ w e = cc

not_less : (x y : ℤ) → ltb_ℤ x y ≡ false → y ≤ℤ x
not_less x y e = ground arith

not_at_most : (x y : ℤ) → leb_ℤ x y ≡ false → y <ℤ x
not_at_most x y e = ground arith

-- A configuration that `validateConfig` accepts has positive times and a threshold of at least one.
pub validate_config-IsValidConfig : (c : Config) → validate_config c ≡ true → IsValidConfig c
unfolding validate_config
validate_config-IsValidConfig c h =
    let (a, b, d, f, g, l, m) =
      none_of_seven (ltb_ℤ c.generic_429_threshold (pos 1)) (leb_ℤ c.generic_429_window (pos 0))
        (leb_ℤ c.generic_429_initial_cooldown (pos 0)) (leb_ℤ c.generic_429_max_cooldown (pos 0))
        (ltb_ℤ c.generic_429_max_cooldown c.generic_429_initial_cooldown)
        (leb_ℤ c.half_open_lease (pos 0)) (leb_ℤ c.evidence_max_age (pos 0))
        (not
          (not (valid_policy c.unknown_auth_policy) || not (valid_policy c.unknown_model_policy)))
        h in
    record {
      threshold = omega (arith, not_less c.generic_429_threshold (pos 1) a);
      window = not_at_most c.generic_429_window (pos 0) b;
      initial = not_at_most c.generic_429_initial_cooldown (pos 0) d;
      capped = not_less c.generic_429_max_cooldown c.generic_429_initial_cooldown g;
      lease = not_at_most c.half_open_lease (pos 0) l;
      age = not_at_most c.evidence_max_age (pos 0) m;
    }

-- A new engine is valid.
pub new_engine-IsValidEngine :
    (c : Config) (e : Engine) → new_engine c ≡ returns e → IsValidEngine e
unfolding new_engine
new_engine-IsValidEngine c e h =
    let d = with_config_defaults c in
    elim (Bool-cases (validate_config d)) [
      | inl good ↦
          subst IsValidEngine (returns_injective {a = initial_engine d} (rw good at h)) (record {
            configured = validate_config-IsValidConfig d good;
            filed = tt;
            distinct = tt;
          })
      | inr bad ↦ absurd (fails_ne_returns (rw bad at h))
    ]

-- No operation on an entry moves it to another index or group.
record SamePlace (x y : Entry) : Type 0 where
  same_index : y.auth_index ≡ x.auth_index
  same_group : y.model_group ≡ x.model_group

observe_entry-SamePlace :
    (p : Parsers) (c : Config) (o : UsageObservation) (x : Entry)
    → SamePlace x (observe_entry p c o x)
unfolding observe_entry observe_success observe_explicit observe_generic count_generic open_entry
    close_entry
observe_entry-SamePlace p c o x = ground arith

apply_evidence-SamePlace : (q : QuotaEvidence) (x : Entry) → SamePlace x (apply_evidence q x)
unfolding apply_evidence open_entry close_entry
apply_evidence-SamePlace q x = ground arith

abbrev replaces : (x y z : Entry) → y ≡ z → SamePlace x z → (IsValid x → IsValid z) → Replaces x y
replaces x y z e s v =
    subst (Replaces x) (sym e)
      (record { valid = v; same_index = s.same_index; same_group = s.same_group })

-- A usage record keeps the engine valid.
pub observe_usage-IsValidEngine :
    (p : Parsers) (wall : Time) (o : UsageObservation) (e : Engine)
    → IsValidEngine e
    → IsValidEngine (observe_usage p wall o e).0
observe_usage-IsValidEngine p wall o e v =
    let (edit, setup) = observe_usage-Edit p wall o e in
    let n = normalized_observation wall o in
    Edit-IsValidEngine _ e _
      (λ x y r.
        replaces x y _ r.1 (observe_entry-SamePlace p e.config n x)
          (observe_entry-IsValid p e.config n x v.configured r.0))
      setup.same_config edit v

-- So does quota evidence, refused or not.
pub apply_quota_evidence-IsValidEngine :
    (wall : Time) (q : QuotaEvidence) (e : Engine)
    → IsValidEngine e
    → IsValidEngine (after e (apply_quota_evidence wall q e))
apply_quota_evidence-IsValidEngine wall q e v =
    let (edit, setup) = apply_quota_evidence-Edit wall q e in
    let n = normalized_evidence wall q in
    Edit-IsValidEngine _ e _
      (λ x y r.
        replaces x y _ r.2 (apply_evidence-SamePlace n x) (apply_evidence-IsValid n x r.0 r.1))
      setup.same_config edit v

-- So does Pick.
pub pick-IsValidEngine :
    (wall : Time) (latency : ℕ) (r : PickRequest) (e : Engine)
    → IsValidEngine e
    → IsValidEngine (pick wall latency r e).0
unfolding lease_entry
pick-IsValidEngine wall latency r e v =
    let (edit, setup) = pick-Edit wall latency r e in
    let n = normalized_request wall r in
    Edit-IsValidEngine _ e _
      (λ x y l.
        replaces x y (lease_entry n e.config x) l.1
          (record { same_index = refl; same_group = refl })
          (lease_entry-IsValid n e.config x v.configured))
      setup.same_config edit v

-- So does a manual half-open probe, refused or not.
pub manual_half_open-IsValidEngine :
    (wall : Time) (index : Text) (g : ModelGroup) (now : Time) (e : Engine)
    → IsValidEngine e
    → IsValidEngine (after e (manual_half_open wall index g now e))
unfolding manual_entry
manual_half_open-IsValidEngine wall index g now e v =
    let (edit, setup) = manual_half_open-Edit wall index g now e in
    Edit-IsValidEngine _ e _
      (λ x y m.
        replaces x y (manual_entry x) m.1 (record { same_index = refl; same_group = refl })
          (manual_entry-IsValid x))
      setup.same_config edit v
