-- ===== src/Runtime/Gate.antt =====
-- internal/runtime/official_handlers.go: whom the scheduler may name while the guard enforces.
use cpa_antigravity_quota_gu.Prelude.{Any, ℕ, ◌≡◌, true, false, ◌⊎◌, some, text_eq}
use cpa_antigravity_quota_gu.Guard.Types.{Time, ModelGroup}
use cpa_antigravity_quota_gu.Guard.Records.{PickRequest}
use cpa_antigravity_quota_gu.Guard.Classify.{classify_model, is_antigravity_provider}
use cpa_antigravity_quota_gu.Guard.Engine.{Engine}
use cpa_antigravity_quota_gu.Guard.Candidates.{PickCandidate}
use cpa_antigravity_quota_gu.Guard.Pick.{normalized_request}
use cpa_antigravity_quota_gu.Guard.Selection.{Admitted}
use cpa_antigravity_quota_gu.Guard.Selection.Outcome.{Outcome, auth_policy, counted_pick}
use cpa_antigravity_quota_gu.Configuration.Records.{guard_mode_enforce}
use cpa_antigravity_quota_gu.Runtime.Records.{
  Adapter, SchedulerAuthCandidate, SchedulerPickRequest, SchedulerReply, selects, refuses,
  answers_directly,
}
use cpa_antigravity_quota_gu.Runtime.Groups.{guard_group_enabled}
use cpa_antigravity_quota_gu.Runtime.Handlers.{
  should_delegate_configured_scheduler, enforcement_is_ready, pick_request,
}

-- The answer names nobody, and does not leave the choice to another scheduler.
abbrev pub IsRefusal : SchedulerReply → Type 0
IsRefusal (refuses _ _ _) = Unit
IsRefusal (answers_directly _ _ _ _) = Unit
IsRefusal _ = ⊥

-- A request for a model of an enforced group on a route of Antigravity, with the guard in enforce
-- mode and the host bound to ask it.
pub record IsArmed (a : Adapter) (request : SchedulerPickRequest) (group : ModelGroup)
    : Type 0 where
  pub enforcing : text_eq a.config.guard.mode guard_mode_enforce ≡ true
  pub asked : should_delegate_configured_scheduler a.config a.host_features request ≡ true
  pub grouped : classify_model request.model ≡ some group
  pub enabled : guard_group_enabled group a.config.guard.enforced_groups ≡ true

module _ (wall : Time) (latency : ℕ) (now : Time) (request : SchedulerPickRequest) (a : Adapter)
    (e : Engine) (group : ModelGroup) where
  -- The request that the guard sees.
  abbrev pub Given : PickRequest
  Given = normalized_request wall (pick_request now a.config request)

  -- While the guard is not ready: a candidate of another provider.
  abbrev pub NamesForeign : SchedulerReply → Type 0
  NamesForeign r =
      (enforcement_is_ready a.guard ≡ false)
      × ((c : SchedulerAuthCandidate) × Any (λ d. d ≡ c) request.candidates
          × (is_antigravity_provider c.provider ≡ false)
          × (r ≡ selects c.id))

  -- Once it is ready: a candidate that the breaker admits.
  abbrev pub NamesAdmitted : SchedulerReply → Type 0
  NamesAdmitted r =
      (enforcement_is_ready a.guard ≡ true)
      × ((p : PickCandidate) × Admitted wall Given (counted_pick e) group (auth_policy Given e) p
          × (r ≡ selects p.candidate.auth_id))

  abbrev pub AnswersSafely : SchedulerReply → Type 0
  AnswersSafely r = IsRefusal r ⊎ NamesForeign r ⊎ NamesAdmitted r
