-- ===== src/Priority/Examples.antt =====
-- internal/priority on three credentials: one with fresh evidence, one with old evidence, one bare.
use mathlib.Core.List.{Perm}
use cpa_antigravity_quota_gu.Prelude.{
  ◌+◌, ◌*◌, ◌≡◌, refl, false, true, Option, none, some, List, [], ◌∷◌, map, pos, negsuc, Text,
  codes, All,
}
use cpa_antigravity_quota_gu.Guard.Types.{Time, second, minute, Float64}
use cpa_antigravity_quota_gu.Priority.Floats.{float_zero, ratio}
use cpa_antigravity_quota_gu.Priority.Quota.{
  PlanQuotaEvidence, calculate_weekly_pacing_ratio, calculate_t_required,
}
use cpa_antigravity_quota_gu.Priority.Items.{
  Credential, PlanItem, Options, normalize_options, current_item,
}
use cpa_antigravity_quota_gu.Priority.Order.{before, compare_healthy_candidates}
use cpa_antigravity_quota_gu.Priority.Plan.{Plan, EvidenceSource, plan_with_evidence}
use cpa_antigravity_quota_gu.Priority.Judged.{Judged}
use cpa_antigravity_quota_gu.Priority.Placed.{Placed}
use cpa_antigravity_quota_gu.Priority.Ranking.{plan_with_evidence-Placed}
use cpa_antigravity_quota_gu.Priority.Kept.{credentials_of, plan_with_evidence-credentials}

abbrev pub noon : Time
noon = 63000000000 * second

abbrev pub bare : Credential
bare = record {
  name = codes "bare";
  auth_index = codes "1";
  provider = codes "antigravity";
  kind = codes "antigravity";
  status = codes "active";
  disabled = false;
  unavailable = false;
  priority = pos 7;
  priority_missing = false;
  account = [];
  email = [];
  plan_type = codes "unknown";
  raw_json = [];
}

abbrev seen_now : Credential
seen_now = record bare { auth_index = codes "2" }

abbrev seen_before : Credential
seen_before = record bare { auth_index = codes "3" }

-- Half of the week's quota and four fifths of the short window's are left.
abbrev half_left : PlanQuotaEvidence
half_left = record {
  auth_index = codes "2";
  provider = codes "antigravity";
  model_group = codes "gemini";
  observed_at = noon;
  reset_at = none;
  remaining = none;
  short_window_reset_at = some (noon + 120 * minute);
  short_window_remaining = some (pos 80);
  long_window_reset_at = some (noon + 6000 * minute);
  long_window_remaining = some (pos 50);
  plan_type = codes "pro";
  cycle_burn_rate = float_zero;
}

abbrev used_up : PlanQuotaEvidence
used_up = record half_left { auth_index = codes "3"; long_window_remaining = some (pos 0) }

abbrev two_sources : EvidenceSource
two_sources = record { fresh = half_left ∷ []; historical = used_up ∷ [] }

abbrev pub defaults : Options
defaults = record {
  now = noon;
  boost_start_priority = pos 0;
  normal_start_priority = pos 0;
  min_change = pos 1;
  urgency_tolerance = float_zero;
  ignore_disabled_host = true;
  cooldown_auth_indexes = [];
}

pacing_nominal : calculate_weekly_pacing_ratio (ratio 1 1) (ratio 168 1) ≡ ratio 1 1
unfolding calculate_weekly_pacing_ratio ratio
pacing_nominal = refl

-- The float nearest to 0.5 / 0.15 * 5, in units of 2^-1074.
t_required_half :
    calculate_t_required (ratio 1 2) (ratio 15 100) ≡ ratio 4691249611844267 281474976710656
unfolding calculate_t_required ratio
t_required_half = refl

-- Three items whose urgencies differ by less than the tolerance from each to the next.
abbrev item_of : Float64 → Text → PlanItem
item_of urgency index = record (current_item (record bare { auth_index = index })) {
  urgency = urgency;
}

healthy_cycle :
    (compare_healthy_candidates
        (item_of float_zero (codes "1"))
        (item_of (ratio 6 10000000000) (codes "2"))
      ≡ before)
    × (compare_healthy_candidates
          (item_of (ratio 6 10000000000) (codes "2"))
          (item_of (ratio 12 10000000000) (codes "3"))
        ≡ before)
    × (compare_healthy_candidates
          (item_of (ratio 12 10000000000) (codes "3"))
          (item_of float_zero (codes "1"))
        ≡ before)
unfolding compare_healthy_candidates ratio current_item
healthy_cycle = (refl, refl, refl)

abbrev pub plan_or : Plan → Option Plan → Plan
plan_or p none = p
plan_or p (some q) = q

abbrev the_plan : Plan
the_plan =
    plan_or (record { decided_at = noon; items = []; changes = [] })
      (plan_with_evidence (bare ∷ seen_now ∷ seen_before ∷ []) (some two_sources) defaults)

abbrev pub changed_indexes : Plan → List Text
changed_indexes p = map (λ c. c.credential.auth_index) p.changes

-- Only the credential with fresh evidence changes.
plan_changes : changed_indexes the_plan ≡ codes "2" ∷ []
unfolding plan_with_evidence
plan_changes = refl

plan_with_evidence-credentials_example :
    Perm (bare ∷ seen_now ∷ seen_before ∷ []) (credentials_of the_plan.items)
unfolding plan_with_evidence
plan_with_evidence-credentials_example =
    plan_with_evidence-credentials (bare ∷ seen_now ∷ seen_before ∷ []) (some two_sources) defaults
      the_plan refl

plan_with_evidence-Placed_example :
    let o = normalize_options defaults in
    All (λ x. Judged o (half_left ∷ []) (used_up ∷ []) x × Placed o x) the_plan.items
unfolding plan_with_evidence
plan_with_evidence-Placed_example =
    plan_with_evidence-Placed (bare ∷ seen_now ∷ seen_before ∷ []) (some two_sources) defaults
      the_plan refl

plan_priorities : map (λ x. x.priority) the_plan.items ≡ pos 100 ∷ pos 7 ∷ negsuc 0 ∷ []
unfolding plan_with_evidence
plan_priorities = refl
