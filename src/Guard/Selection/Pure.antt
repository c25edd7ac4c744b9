-- ===== src/Guard/Selection/Pure.antt =====
-- internal/guard/pick.go: outside of enforce mode Pick decides nothing for the breaker.
use cpa_antigravity_quota_gu.Prelude.{ℕ, ◌+◌, u64, ◌≡◌, false, Option, none, some, arith}
use cpa_antigravity_quota_gu.Guard.Types.{Time, ModelGroup, is_enforce, Policy}
use cpa_antigravity_quota_gu.Guard.Records.{PickRequest}
use cpa_antigravity_quota_gu.Guard.Engine.{Engine, or_policy}
use cpa_antigravity_quota_gu.Guard.Classify.{classify_model}
use cpa_antigravity_quota_gu.Guard.Selection.Outcome.{auth_policy, counted_pick}
use cpa_antigravity_quota_gu.Guard.Pick.{
  pick_none, pick_selected, pick_group, pick_unknown_model, pick_other, pick_classified,
  pick_locked, record_pick, normalized_request, pick,
}

-- All of the engine but its metrics and the last selection.
pub record SameBreaker (e e' : Engine) : Type 0 where
  pub same_config : e'.config ≡ e.config
  pub same_entries : e'.entries ≡ e.entries
  pub same_auth : e'.auth_by_id ≡ e.auth_by_id
  pub same_cursors : e'.cursors ≡ e.cursors
  pub same_updated : e'.updated ≡ e.updated
  pub same_dirty : e'.dirty ≡ e.dirty
  pub same_generation : e'.generation ≡ e.generation

pick_group-SameBreaker :
    (wall : Time) (r : PickRequest) (g : ModelGroup) (policy : Policy) (e : Engine)
    → is_enforce r.mode ≡ false
    → SameBreaker e (pick_group wall r g policy e).0
unfolding pick_group pick_none pick_selected
pick_group-SameBreaker wall r g policy e h = ground arith

pub pick_unknown_model-SameBreaker :
    (r : PickRequest) (policy : Policy) (e : Engine)
    → SameBreaker e (pick_unknown_model r policy e).0
unfolding pick_unknown_model pick_other
pick_unknown_model-SameBreaker r policy e = ground arith

abbrev pub counted_model : Engine → Engine
counted_model e = record e {
  metrics = record (e.metrics) { unknown_model_total = u64 (e.metrics.unknown_model_total + 1) };
}

pick_classified-SameBreaker :
    (wall : Time) (r : PickRequest) (g : Option ModelGroup) (e : Engine)
    → is_enforce r.mode ≡ false
    → SameBreaker e (pick_classified wall r g e).0
unfolding pick_classified
pick_classified-SameBreaker wall r none e h = ground (
  arith,
  pick_unknown_model-SameBreaker r (or_policy r.unknown_model_policy e.config.unknown_model_policy)
      (counted_model e),
)
pick_classified-SameBreaker wall r (some g) e h =
    ground (arith, pick_group-SameBreaker wall r g (auth_policy r e) e h)

-- In any mode but enforce, Pick consumes no lease and no cursor: entries, cursors, identities,
-- generation and dirty count stay as they are.
pub pick-SameBreaker :
    (wall : Time) (latency : ℕ) (request : PickRequest) (e : Engine)
    → is_enforce (normalized_request wall request).mode ≡ false
    → SameBreaker e (pick wall latency request e).0
unfolding pick pick_locked record_pick
pick-SameBreaker wall latency request e h =
    let r = normalized_request wall request in
    ground (arith, pick_classified-SameBreaker wall r (classify_model r.model) (counted_pick e) h)
