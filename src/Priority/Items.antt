-- ===== src/Priority/Items.antt =====
-- internal/priority/planner.go: the items of a plan, and the state that evidence gives each.
use cpa_antigravity_quota_gu.Prelude.{
  Bool, true, false, ◌&&◌, Option, none, some, List, [], ◌∷◌, if◌then◌else◌, ℤ, pos, negsuc, leb_ℤ,
  ltb_ℤ, Text, codes, is_empty, Dict, lookup, insert,
}
use cpa_antigravity_quota_gu.Guard.Types.{Time, Float64}
use cpa_antigravity_quota_gu.Priority.Floats.{float_zero}
use cpa_antigravity_quota_gu.Priority.Quota.{PlanQuotaEvidence, QuotaMetrics, extract_quota_metrics}

-- `core.Credential`; a string type is its text.
pub record Credential : Type 0 where
  pub name : Text
  pub auth_index : Text
  pub provider : Text
  pub kind : Text
  pub status : Text
  pub disabled : Bool
  pub unavailable : Bool
  pub priority : ℤ
  pub priority_missing : Bool
  pub account : Text
  pub email : Text
  pub plan_type : Text
  pub raw_json : Text

pub data QuotaState : Type 0 where
  quota_unknown quota_healthy quota_short_depleted quota_weekly_depleted : QuotaState

pub record PlanItem : Type 0 where
  pub credential : Credential
  pub priority : ℤ
  pub disabled : Bool
  pub plan_type : Text
  pub reset_at : Option Time
  pub remaining : Option ℤ
  pub short_window_reset_at : Option Time
  pub short_window_remaining : Option ℤ
  pub long_window_reset_at : Option Time
  pub long_window_remaining : Option ℤ
  pub evidence_fresh : Bool
  pub force_write : Bool
  pub reason : Text
  pub is_boosted : Bool
  pub urgency : Float64
  pub r7d : Float64
  pub t7d : Float64
  pub r5h : Float64
  pub t5h : Float64
  pub cycle_burn_rate : Float64
  pub t_required : Float64
  pub has_quota_evidence : Bool
  pub quota_state : QuotaState

pub record Options : Type 0 where
  pub now : Time
  pub boost_start_priority : ℤ
  pub normal_start_priority : ℤ
  pub min_change : ℤ
  pub urgency_tolerance : Float64
  pub ignore_disabled_host : Bool
  pub cooldown_auth_indexes : Dict Time

-- The constants of boost.go, and the reasons.
abbrev pub max_priority : ℤ
max_priority = pos 999

abbrev pub min_priority : ℤ
min_priority = pos 1

abbrev pub depleted_priority : ℤ
depleted_priority = negsuc 0

abbrev pub reason_keep_current_state : Text
reason_keep_current_state = codes "keep current state"

abbrev pub reason_disabled_on_host : Text
reason_disabled_on_host = codes "disabled on host"

abbrev pub reason_fresh_boosted : Text
reason_fresh_boosted = codes "fresh boosted"

abbrev pub reason_fresh_remaining_positive : Text
reason_fresh_remaining_positive = codes "fresh remaining positive"

abbrev pub reason_429_cooldown : Text
reason_429_cooldown = codes "429 rate limit cooldown"

-- A start priority that is absent gets a default, and none is above the largest.
abbrev start_or : ℤ → ℤ → ℤ
start_or default n =
    let n' = if leb_ℤ n (pos 0) then default else n in
    if ltb_ℤ max_priority n' then max_priority else n'

-- `normalizeOptions`
unfoldable pub normalize_options : Options → Options
normalize_options o = record o {
  boost_start_priority = start_or (pos 999) o.boost_start_priority;
  normal_start_priority = start_or (pos 100) o.normal_start_priority;
  min_change = if ltb_ℤ o.min_change (pos 0) then pos 0 else o.min_change;
}

-- `quotaEvidenceByAuthIndex`: of two observations of an index the later one stays.
unfoldable pub evidence_into :
    Dict PlanQuotaEvidence → List PlanQuotaEvidence → Dict PlanQuotaEvidence
unfolding insert
evidence_into m [] = m
evidence_into m (q ∷ qs) =
    evidence_into (if is_empty q.auth_index then m else insert q.auth_index q m) qs

abbrev pub quota_evidence_by_auth_index : List PlanQuotaEvidence → Dict PlanQuotaEvidence
quota_evidence_by_auth_index qs = evidence_into [] qs

-- The item of a credential before any evidence.
unfoldable pub current_item : Credential → PlanItem
current_item c = record {
  credential = c;
  priority = c.priority;
  disabled = c.disabled;
  plan_type = c.plan_type;
  reset_at = none;
  remaining = none;
  short_window_reset_at = none;
  short_window_remaining = none;
  long_window_reset_at = none;
  long_window_remaining = none;
  evidence_fresh = false;
  force_write = false;
  reason = reason_keep_current_state;
  is_boosted = false;
  urgency = float_zero;
  r7d = float_zero;
  t7d = float_zero;
  r5h = float_zero;
  t5h = float_zero;
  cycle_burn_rate = float_zero;
  t_required = float_zero;
  has_quota_evidence = false;
  quota_state = quota_unknown;
}

-- The switch on depletion.
unfoldable pub judge_item : QuotaMetrics → PlanItem → PlanItem
judge_item m x =
    if m.is_weekly_depleted
    then record x {
      priority = depleted_priority;
      disabled = true;
      reason = codes "fresh weekly depleted";
      quota_state = quota_weekly_depleted;
    }
    else if m.is_short_depleted
    then record x {
      priority = depleted_priority;
      disabled = false;
      reason = codes "fresh short window depleted";
      quota_state = quota_short_depleted;
    }
    else record x {
      disabled = false;
      reason = if x.is_boosted then reason_fresh_boosted else reason_fresh_remaining_positive;
      quota_state = quota_healthy;
    }

-- The observation and its metrics in an item.
abbrev pub observed_item : QuotaMetrics → Bool → PlanQuotaEvidence → PlanItem → PlanItem
observed_item m fresh q x = record x {
  evidence_fresh = fresh;
  has_quota_evidence = true;
  plan_type = q.plan_type;
  reset_at = q.reset_at;
  remaining = q.remaining;
  short_window_reset_at = q.short_window_reset_at;
  short_window_remaining = q.short_window_remaining;
  long_window_reset_at = q.long_window_reset_at;
  long_window_remaining = q.long_window_remaining;
  r7d = m.r7d;
  t7d = m.t7d;
  r5h = m.r5h;
  t5h = m.t5h;
  cycle_burn_rate = m.cycle_burn_rate;
  t_required = m.t_required;
  urgency = m.urgency;
  is_boosted = m.is_boosted;
}

-- What evidence, fresh or not, makes of an item.
unfoldable pub observe_item : Time → Bool → PlanQuotaEvidence → PlanItem → PlanItem
unfolding judge_item extract_quota_metrics
observe_item now fresh q x =
    let m = extract_quota_metrics q now in judge_item m (observed_item m fresh q x)

-- Fresh evidence of the index counts before historical evidence.
unfoldable pub item_with :
    Time → Option PlanQuotaEvidence → Option PlanQuotaEvidence → PlanItem → PlanItem
unfolding observe_item
item_with now (some q) _ x = observe_item now true q x
item_with now none (some q) x = observe_item now false q x
item_with now none none x = x

unfoldable pub plan_item :
    Options → Dict PlanQuotaEvidence → Dict PlanQuotaEvidence → Credential → PlanItem
unfolding current_item item_with lookup
plan_item o fresh historical c =
    if c.disabled && o.ignore_disabled_host
    then record (current_item c) { reason = reason_disabled_on_host }
    else item_with o.now (lookup c.auth_index fresh) (lookup c.auth_index historical)
        (current_item c)

-- `planItems`
unfoldable pub plan_items :
    List Credential → List PlanQuotaEvidence → List PlanQuotaEvidence → Options → List PlanItem
unfolding plan_item evidence_into
plan_items [] fresh historical o = []
plan_items (c ∷ cs) fresh historical o =
    plan_item o (quota_evidence_by_auth_index fresh) (quota_evidence_by_auth_index historical) c
    ∷ plan_items cs fresh historical o
