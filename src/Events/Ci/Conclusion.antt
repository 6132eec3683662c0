-- ===== src/Events/Ci/Conclusion.antt =====
-- What a run's conclusion says of its jobs.
use crabforge.Prelude.{
  ◌≡◌, refl, Bool, true, false, ◌&&◌, ◌||◌, not, List, [], ◌∷◌, arith, if◌then◌else◌, any, all,
  is_empty,
}
use crabforge.Events.Ci.{
  JobConclusion, success, failed, timed_out, infra_failed, cancelled, RunConclusion, fold_end,
  fold_jobs, from_jobs,
}

abbrev pub is_failure : JobConclusion → Bool
is_failure failed = true
is_failure timed_out = true
is_failure infra_failed = true
is_failure _ = false

abbrev pub is_cancelled : JobConclusion → Bool
is_cancelled cancelled = true
is_cancelled _ = false

-- A run's conclusion, from the set of its jobs' conclusions.
abbrev pub conclusion_by_quantifiers : List JobConclusion → RunConclusion
conclusion_by_quantifiers cs =
    if any is_failure cs
    then RunConclusion.failed
    else if not (is_empty cs) && all is_cancelled cs
    then RunConclusion.cancelled
    else RunConclusion.success

fold_jobs_lem :
    (seen only : Bool) (cs : List JobConclusion)
    → fold_jobs seen only cs ≡ (
        if any is_failure cs
        then RunConclusion.failed
        else fold_end (seen || not (is_empty cs)) (only && all is_cancelled cs))
unfolding fold_jobs
fold_jobs_lem seen only [] = ground arith
fold_jobs_lem seen only (success ∷ cs) = rw (fold_jobs_lem true false cs) (ground arith)
fold_jobs_lem seen only (cancelled ∷ cs) = rw (fold_jobs_lem true only cs) (ground arith)
fold_jobs_lem seen only (failed ∷ cs) = refl
fold_jobs_lem seen only (timed_out ∷ cs) = refl
fold_jobs_lem seen only (infra_failed ∷ cs) = refl

-- The loop over the jobs' conclusions returns "failed" if one of them failed, timed out or had no
-- sandbox, "cancelled" if there are jobs and all are cancelled, and "success" otherwise.
pub from_jobs_lem : (cs : List JobConclusion) → from_jobs cs ≡ conclusion_by_quantifiers cs
unfolding from_jobs
from_jobs_lem cs = rw (fold_jobs_lem false true cs) (ground arith)
