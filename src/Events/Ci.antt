-- ===== src/Events/Ci.antt =====
-- crates/forge-events/src/domain.rs: the events of CI runs and jobs.
pub mod Conclusion
use crabforge.Prelude.{ℕ, Bool, true, false, List, [], ◌∷◌, Option}
use crabforge.Str.{Text, codes}
use crabforge.Types.Int.{ℤ}
use crabforge.Types.Oid.{Oid}
use crabforge.Types.Topics

pub data JobConclusion : Type 0 where
  success failed timed_out infra_failed cancelled : JobConclusion

pub data RunConclusion : Type 0 where
  success failed cancelled : RunConclusion

pub record PlannedJobSpec : Type 0 where
  pub job_id : ℕ
  pub name : Text
  pub image : Text

pub data CiEvent : Type 0 where
  run_queued :
      (run_id repo_id : ℕ) (number : ℤ) (workflow name event : Text) (head_oid : Oid)
      (ref_name actor_name : Text) (jobs : List PlannedJobSpec)
      → CiEvent
  job_started : (job_id run_id repo_id : ℕ) (attempt log_offset : ℤ) → CiEvent
  job_finished :
      (job_id run_id repo_id : ℕ) (attempt : ℤ) (conclusion : JobConclusion) (exit_code : Option ℤ)
      → CiEvent
  run_finished : (run_id repo_id : ℕ) (conclusion : RunConclusion) → CiEvent

-- `JobConclusion::as_str`
unfoldable pub job_conclusion_as_str : JobConclusion → Text
job_conclusion_as_str JobConclusion.success = codes "success"
job_conclusion_as_str JobConclusion.failed = codes "failed"
job_conclusion_as_str timed_out = codes "timed_out"
job_conclusion_as_str infra_failed = codes "infra_failed"
job_conclusion_as_str JobConclusion.cancelled = codes "cancelled"

-- `RunConclusion::as_str`
unfoldable pub run_conclusion_as_str : RunConclusion → Text
run_conclusion_as_str RunConclusion.success = codes "success"
run_conclusion_as_str RunConclusion.failed = codes "failed"
run_conclusion_as_str RunConclusion.cancelled = codes "cancelled"

-- The `match` after the loop of `from_jobs`.
abbrev pub fold_end : Bool → Bool → RunConclusion
fold_end true true = RunConclusion.cancelled
fold_end _ _ = RunConclusion.success

-- The loop of `from_jobs`, with `any` and `cancelled_only`.
unfoldable pub fold_jobs : Bool → Bool → List JobConclusion → RunConclusion
fold_jobs seen cancelled_only [] = fold_end seen cancelled_only
fold_jobs seen cancelled_only (JobConclusion.success ∷ cs) = fold_jobs true false cs
fold_jobs seen cancelled_only (JobConclusion.cancelled ∷ cs) = fold_jobs true cancelled_only cs
fold_jobs seen cancelled_only (_ ∷ cs) = RunConclusion.failed

-- `RunConclusion::from_jobs`
unfoldable pub from_jobs : List JobConclusion → RunConclusion
unfolding fold_jobs
from_jobs conclusions = fold_jobs false true conclusions

-- `DomainEvent::event_type`
unfoldable pub ci_event_type : CiEvent → Text
ci_event_type (run_queued _ _ _ _ _ _ _ _ _ _) = codes "ci.run_queued"
ci_event_type (job_started _ _ _ _ _) = codes "ci.job_started"
ci_event_type (job_finished _ _ _ _ _ _) = codes "ci.job_finished"
ci_event_type (run_finished _ _ _) = codes "ci.run_finished"

-- `DomainEvent::aggregate_id`
unfoldable pub ci_aggregate : (ℕ → Text) → CiEvent → Text
ci_aggregate uuid_text (run_queued run_id _ _ _ _ _ _ _ _ _) = uuid_text run_id
ci_aggregate uuid_text (job_started _ run_id _ _ _) = uuid_text run_id
ci_aggregate uuid_text (job_finished _ run_id _ _ _ _) = uuid_text run_id
ci_aggregate uuid_text (run_finished run_id _ _) = uuid_text run_id
