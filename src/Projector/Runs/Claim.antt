-- ===== src/Projector/Runs/Claim.antt =====
-- The first start of a job wins.
use crabforge.Prelude.{◌≡◌, refl, ap, inl, inr, ℕ, false, Bool-cases}
use crabforge.Str.{Text, codes, text_eq}
use crabforge.Types.Int.{ℤ}
use crabforge.Events.Ci.{job_started}
use crabforge.Store.Table.Updates.{update_where_never}
use crabforge.Store.Ci.{CiTables, claimed, claim_job}
use crabforge.Projector.Runs.{apply_ci_event, mark_run_running}
use crabforge.Projector.Twice.Runs.{
  started, claim_job_untouched, claim_job_once, jobs-mark_run_running,
}

claim_job_never :
    (job_id : Text) (attempt log_offset attempt' log_offset' : ℤ) (at at' : ℕ) (t : CiTables)
    → (claim_job job_id attempt log_offset at t).1 ≡ false
    → claim_job job_id attempt' log_offset' at' t ≡ (t, false)
unfolding claim_job
claim_job_never job_id attempt log_offset attempt' log_offset' at at' t h =
    let never =
      update_where_never job_id (λ job. text_eq job.status (codes "queued"))
        (claimed attempt log_offset at) (claimed attempt' log_offset' at') t.jobs h in
    ap (λ r. (record t { jobs = r.0 }, r.1)) never

started_once :
    (job run run' : Text) (attempt log_offset attempt' log_offset' : ℤ) (at at' : ℕ) (t : CiTables)
    → (let once = started job run attempt log_offset at t in
        started job run' attempt' log_offset' at' once ≡ once)
started_once job run run' attempt log_offset attempt' log_offset' at at' t =
    let claim = claim_job job attempt log_offset at t in
    elim (Bool-cases claim.1) [
      | inl h ↦
          let u = mark_run_running run at claim.0 in
          let first : started job run attempt log_offset at t ≡ u = rw h refl in
          let second =
            claim_job_once job attempt log_offset attempt' log_offset' at at' t u h
              (jobs-mark_run_running run at claim.0) in
          rw first (rw second refl)
      | inr h ↦
          let first : started job run attempt log_offset at t ≡ t =
            rw h (claim_job_untouched job attempt log_offset at t h) in
          let second = claim_job_never job attempt log_offset attempt' log_offset' at at' t h in
          rw first (rw second refl)
    ]

-- Once a start of a job was applied, a further start of that job, of whatever run, attempt, log offset
-- and time, changes no row.
pub second_start :
    (uuid_text : ℕ → Text) (job_id run_id repo_id run_id' repo_id' : ℕ)
    (attempt log_offset attempt' log_offset' : ℤ) (at at' : ℕ) (t : CiTables)
    → (let once =
          apply_ci_event uuid_text (job_started job_id run_id repo_id attempt log_offset) at t in
        apply_ci_event uuid_text (job_started job_id run_id' repo_id' attempt' log_offset') at' once
        ≡ once)
unfolding apply_ci_event
second_start uuid_text job_id run_id repo_id run_id' repo_id' attempt log_offset attempt'
      log_offset' at at' t =
    started_once (uuid_text job_id) (uuid_text run_id) (uuid_text run_id') attempt log_offset
      attempt' log_offset' at at' t
