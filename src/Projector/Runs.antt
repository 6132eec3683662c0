-- ===== src/Projector/Runs.antt =====
-- crates/forge-projector/src/apply.rs: CI events.
pub mod Success
pub mod Claim
use crabforge.Prelude.{
  ℕ, Bool, true, false, ◌||◌, not, List, [], ◌∷◌, Option, none, some, if◌then◌else◌, is_empty, all,
  map,
}
use crabforge.Str.{Text, codes, text_eq}
use crabforge.Types.Oid.{to_hex}
use crabforge.Types.Int.{ℤ, pos}
use crabforge.Events.Ci.{
  CiEvent, run_queued, job_started, job_finished, run_finished, PlannedJobSpec, JobConclusion,
  RunConclusion, timed_out, infra_failed, job_conclusion_as_str, run_conclusion_as_str, from_jobs,
}
use crabforge.Store.Ci.{
  RunRecord, JobRecord, CiTables, upsert_run, upsert_job, claim_job, finish_job, run_by_id, jobs_of,
  is_finished_run, is_finished_job,
}

-- The loop over the planned jobs.
unfoldable pub queue_jobs : (ℕ → Text) → Text → Text → ℕ → List PlannedJobSpec → CiTables → CiTables
unfolding upsert_job
queue_jobs uuid_text run_id repo_id at [] t = t
queue_jobs uuid_text run_id repo_id at (spec ∷ specs) t =
    queue_jobs uuid_text run_id repo_id at specs (
      upsert_job
        (record {
          job_id = uuid_text spec.job_id;
          run_id = run_id;
          repo_id = repo_id;
          name = spec.name;
          image = spec.image;
          status = codes "queued";
          attempt = pos 0;
          exit_code = none;
          log_offset = none;
          created_at = at;
          updated_at = at;
          started_at = none;
          finished_at = none;
        })
        t)

unfoldable pub mark_run_running : Text → ℕ → CiTables → CiTables
unfolding run_by_id upsert_run text_eq
mark_run_running run_id at t = elim (run_by_id run_id t) [
  | none ↦ t
  | some run ↦
      if not (text_eq run.status (codes "queued"))
      then t
      else upsert_run
          (record run { status = codes "running"; updated_at = at; started_at = some at }) t
]

-- The `match` on a job's status.
unfoldable pub conclusion_of : Text → JobConclusion
unfolding text_eq
conclusion_of status =
    if text_eq status (codes "success")
    then JobConclusion.success
    else if text_eq status (codes "timed_out")
    then timed_out
    else if text_eq status (codes "infra_failed")
    then infra_failed
    else if text_eq status (codes "cancelled")
    then JobConclusion.cancelled
    else JobConclusion.failed

unfoldable pub run_conclusion : Text → CiTables → Option RunConclusion
unfolding jobs_of is_finished_job conclusion_of from_jobs
run_conclusion run_id t =
    let jobs = jobs_of run_id t in
    if is_empty jobs || not (all is_finished_job jobs)
    then none
    else some (from_jobs (map (λ job. conclusion_of job.status) jobs))

-- The row of a run that is over.
abbrev pub concluded : RunConclusion → ℕ → RunRecord → RunRecord
concluded conclusion at run = record run {
  status = run_conclusion_as_str conclusion;
  updated_at = at;
  finished_at = some at;
}

-- What follows an applied report.
unfoldable pub conclude_run : Text → ℕ → CiTables → CiTables
unfolding run_conclusion run_by_id upsert_run is_finished_run run_conclusion_as_str
conclude_run run_id at t = elim (run_conclusion run_id t) [
  | none ↦ t
  | some conclusion ↦ elim (run_by_id run_id t) [
    | none ↦ t
    | some run ↦ if not (is_finished_run run) then upsert_run (concluded conclusion at run) t else t
  ]
]

unfoldable pub apply_ci_event : (ℕ → Text) → CiEvent → ℕ → CiTables → CiTables
unfolding upsert_run queue_jobs claim_job mark_run_running finish_job conclude_run
    job_conclusion_as_str run_by_id run_conclusion_as_str to_hex
apply_ci_event uuid_text
      (run_queued run_id repo_id number workflow name event head_oid ref_name actor_name jobs) at
      t =
    queue_jobs uuid_text (uuid_text run_id) (uuid_text repo_id) at jobs (
      upsert_run
        (record {
          run_id = uuid_text run_id;
          repo_id = uuid_text repo_id;
          number = number;
          workflow = workflow;
          event = event;
          head_oid = to_hex head_oid;
          ref_name = ref_name;
          actor_name = actor_name;
          status = codes "queued";
          created_at = at;
          updated_at = at;
          started_at = none;
          finished_at = none;
        })
        t)
apply_ci_event uuid_text (job_started job_id run_id repo_id attempt log_offset) at t =
    let (t', claimed) = claim_job (uuid_text job_id) attempt log_offset at t in
    if not claimed then t' else mark_run_running (uuid_text run_id) at t'
apply_ci_event uuid_text (job_finished job_id run_id repo_id attempt conclusion exit_code) at t =
    let (t', applied) =
      finish_job (uuid_text job_id) attempt (job_conclusion_as_str conclusion) exit_code at t in
    if not applied then t' else conclude_run (uuid_text run_id) at t'
apply_ci_event uuid_text (run_finished run_id repo_id conclusion) at t =
    elim (run_by_id (uuid_text run_id) t) [
      | none ↦ t
      | some run ↦ upsert_run (concluded conclusion at run) t
    ]
