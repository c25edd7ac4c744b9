-- ===== src/Guard/Steps.antt =====
-- internal/guard: the operations of the engine as steps, in any order and from any caller. The
-- mutex makes each operation one step.
use cpa_antigravity_quota_gu.Prelude.{ℕ, ◌≡◌, inl, inr, Bool-cases, ◌==◌, List, Text}
use cpa_antigravity_quota_gu.Guard.Types.{Time, ModelGroup, Fallible, returns, fails}
use cpa_antigravity_quota_gu.Guard.Records.{
  Config, Identity, PickRequest, UsageObservation, QuotaEvidence,
}
use cpa_antigravity_quota_gu.Guard.Reset.{Parsers}
use cpa_antigravity_quota_gu.Guard.Engine.{Engine, new_engine}
use cpa_antigravity_quota_gu.Guard.Roster.{replace_roster, register_identity}
use cpa_antigravity_quota_gu.Guard.Observe.{observe_usage}
use cpa_antigravity_quota_gu.Guard.Evidence.{apply_quota_evidence, record_quota_probe_error}
use cpa_antigravity_quota_gu.Guard.Pick.{pick, manual_half_open}
use cpa_antigravity_quota_gu.Guard.Store.{save_begin, save_finish}
use cpa_antigravity_quota_gu.Guard.Document.{exported, load_document}
use cpa_antigravity_quota_gu.Guard.Store.Loading.{load_document-IsValidEngine, exported-IsValid}
use cpa_antigravity_quota_gu.Guard.Edits.{after}
use cpa_antigravity_quota_gu.Guard.Invariant.{IsValidEngine}
use cpa_antigravity_quota_gu.Guard.Invariant.Engines.{
  new_engine-IsValidEngine, observe_usage-IsValidEngine, apply_quota_evidence-IsValidEngine,
  pick-IsValidEngine, manual_half_open-IsValidEngine,
}
use cpa_antigravity_quota_gu.Guard.Invariant.Roster.{
  replace_roster-IsValidEngine, register_identity-IsValidEngine,
}

module _ (p : Parsers) (sha : Text → Text) where
  pub data Step (e : Engine) : Engine → Type 0 where
    picks : (wall : Time) (latency : ℕ) (r : PickRequest) → Step e (pick wall latency r e).0
    observes : (wall : Time) (o : UsageObservation) → Step e (observe_usage p wall o e).0
    probes : (wall : Time) (q : QuotaEvidence) → Step e (after e (apply_quota_evidence wall q e))
    probe_fails : Step e (record_quota_probe_error e)
    readies :
        (wall : Time) (index : Text) (g : ModelGroup) (now : Time)
        → Step e (after e (manual_half_open wall index g now e))
    reconciles :
        {e' : Engine} (wall : Time) (is : List Identity)
        → replace_roster sha wall is e ≡ returns e'
        → Step e e'
    registers :
        {e' : Engine} (wall : Time) (i : Identity)
        → register_identity sha wall i e ≡ returns e'
        → Step e e'
    saves : (generation : ℕ) (r : Fallible (Unit {0})) → Step e (save_finish generation r e)

  -- The engines of a process and of its restarts: one that `New` made, those that steps lead to,
  -- and those that load the document that a save has taken of such an engine, as encoding/json
  -- keeps it.
  pub data Reached (c : Config) : Engine → Type 0 where
    made : {e : Engine} → new_engine c ≡ returns e → Reached c e
    next : {e e' : Engine} → Reached c e → Step e e' → Reached c e'
    reloaded :
        {saved e e' : Engine} (wall later : Time)
        → Reached c saved
        → Reached c e
        → load_document later (exported (save_begin wall saved).0) e ≡ returns e'
        → Reached c e'

  Step-IsValidEngine : {e e' : Engine} → Step e e' → IsValidEngine e → IsValidEngine e'
  unfolding record_quota_probe_error save_finish
  Step-IsValidEngine {e} (picks wall latency r) v = pick-IsValidEngine wall latency r e v
  Step-IsValidEngine {e} (observes wall o) v = observe_usage-IsValidEngine p wall o e v
  Step-IsValidEngine {e} (probes wall q) v = apply_quota_evidence-IsValidEngine wall q e v
  Step-IsValidEngine probe_fails v = record {
    configured = v.configured;
    filed = v.filed;
    distinct = v.distinct;
  }
  Step-IsValidEngine {e} (readies wall index g now) v =
      manual_half_open-IsValidEngine wall index g now e v
  Step-IsValidEngine {e} (reconciles wall is h) v = replace_roster-IsValidEngine sha wall is e _ v h
  Step-IsValidEngine {e} (registers wall i h) v = register_identity-IsValidEngine sha wall i e _ v h
  Step-IsValidEngine (saves generation (fails x)) v = record {
    configured = v.configured;
    filed = v.filed;
    distinct = v.distinct;
  }
  Step-IsValidEngine {e} (saves generation (returns u)) v =
      elim (Bool-cases (e.generation == generation)) [
        | inl same ↦
            rw same (record { configured = v.configured; filed = v.filed; distinct = v.distinct })
        | inr moved ↦ rw moved v
      ]

  -- Whatever operations run on an engine that New made, in whatever order, loads of documents that
  -- such engines have saved included, every entry of the engine is valid and stands under its own
  -- key, once.
  pub Reached-IsValidEngine : {c : Config} {e : Engine} → Reached c e → IsValidEngine e
  Reached-IsValidEngine {c} {e} (made h) = new_engine-IsValidEngine c e h
  Reached-IsValidEngine (next r s) = Step-IsValidEngine s (Reached-IsValidEngine r)
  Reached-IsValidEngine {c} {e = e'} (reloaded {saved} {e} wall later r s h) =
      load_document-IsValidEngine later (exported (save_begin wall saved).0) e e'
        (exported-IsValid wall saved (Reached-IsValidEngine r)) (Reached-IsValidEngine s) h
