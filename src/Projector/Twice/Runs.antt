-- ===== src/Projector/Twice/Runs.antt =====
-- CI events that arrive twice.
pub mod Queued
pub mod Concluded
use crabforge.Prelude.{
  ◌≡◌, ◌⊎◌, ◌∙◌, refl, sym, ap, ℕ, Bool, true, false, not, inl, inr, Option, Option-cases,
  Bool-cases, none, some, arith, if◌then◌else◌,
}
use crabforge.Str.{Text, codes, text_eq}
use crabforge.Str.Laws.{text_eq_iff}
use crabforge.Types.Int.{ℤ}
use crabforge.Events.Ci.{
  CiEvent, RunConclusion, run_queued, job_started, job_finished, run_finished,
  run_conclusion_as_str, job_conclusion_as_str,
}
use crabforge.HashMap
use crabforge.HashMap.Laws.{get-insert_self}
use crabforge.Store.Table.{Table, by_key, upsert, update_where}
use crabforge.Store.Table.Laws.{
  rewrite, rewrite-rewrite, upsert-upsert, upsert-some, get-upsert_at, get-upsert_ne, insert-insert,
}
use crabforge.Store.Table.Updates.{
  update_where_same, update_where_once, update_where_untouched, update_where_cases, update_where_at,
}
use crabforge.Store.Ci.{
  RunRecord, JobRecord, CiTables, merge_run, upsert_run, claim_job, claimed, finish_job, reported,
  same_attempt, run_by_id, jobs_of, is_finished_run,
}
use crabforge.Projector.Twice.Runs.Queued.{queue_twice}
use crabforge.Projector.Twice.Runs.Concluded.{
  jobs-conclude_run, conclude_run_twice, ended, ended_twice,
}
use crabforge.Projector.Runs.{
  mark_run_running, run_conclusion, concluded, conclude_run, apply_ci_event,
}

abbrev with_jobs : Table JobRecord → CiTables → CiTables
with_jobs jobs t = record t { jobs = jobs }

pub jobs-mark_run_running :
    (run_id : Text) (at : ℕ) (t : CiTables) → (mark_run_running run_id at t).jobs ≡ t.jobs
unfolding mark_run_running upsert_run
jobs-mark_run_running run_id at t = elim (Option-cases (run_by_id run_id t)) [
  | inl e ↦ rw (e, mark_run_running) refl
  | inr (run, e) ↦ elim (Bool-cases (text_eq run.status (codes "queued"))) [
    | inl h ↦ rw (e, mark_run_running, h) refl
    | inr h ↦ rw (e, mark_run_running, h) refl
  ]
]

-- The two ways of the arm for a start.
abbrev pub started : Text → Text → ℤ → ℤ → ℕ → CiTables → CiTables
started job_id run_id attempt log_offset at t =
    let (t', claimed) = claim_job job_id attempt log_offset at t in
    if not claimed then t' else mark_run_running run_id at t'

pub claim_job_untouched :
    (job_id : Text) (attempt log_offset : ℤ) (at : ℕ) (t : CiTables)
    → (claim_job job_id attempt log_offset at t).1 ≡ false
    → (claim_job job_id attempt log_offset at t).0 ≡ t
unfolding claim_job
claim_job_untouched job_id attempt log_offset at t h =
    ap (λ jobs. with_jobs jobs t) (update_where_untouched job_id _ _ t.jobs h)

-- A job that a claim took is not claimed again, whoever asks, at whatever time.
pub claim_job_once :
    (job_id : Text) (attempt log_offset attempt' log_offset' : ℤ) (at at' : ℕ) (t u : CiTables)
    → (claim_job job_id attempt log_offset at t).1 ≡ true
    → u.jobs ≡ (claim_job job_id attempt log_offset at t).0.jobs
    → claim_job job_id attempt' log_offset' at' u ≡ (u, false)
unfolding claim_job text_eq
claim_job_once job_id attempt log_offset attempt' log_offset' at at' t u h same =
    let once =
      update_where_once job_id (λ job. text_eq job.status (codes "queued"))
        (claimed attempt log_offset at) (claimed attempt' log_offset' at') t.jobs (λ row. refl) h in
    let here : update_where job_id (λ job. text_eq job.status (codes "queued"))
          (claimed attempt' log_offset' at') u.jobs
        ≡ (u.jobs, false) =
      rw same once in
    ap (λ r. (with_jobs r.0 u, r.1)) here

started_twice :
    (job_id run_id : Text) (attempt log_offset : ℤ) (at : ℕ) (t : CiTables)
    → started job_id run_id attempt log_offset at (started job_id run_id attempt log_offset at t)
      ≡ started job_id run_id attempt log_offset at t
started_twice job_id run_id attempt log_offset at t =
    elim (Bool-cases (claim_job job_id attempt log_offset at t).1) [
      | inl h ↦
          let u = mark_run_running run_id at (claim_job job_id attempt log_offset at t).0 in
          let first : started job_id run_id attempt log_offset at t ≡ u = rw h refl in
          let second =
            claim_job_once job_id attempt log_offset attempt log_offset at at t u h
              (jobs-mark_run_running run_id at _) in
          rw first (rw second refl)
      | inr h ↦
          let none_claimed = claim_job_untouched job_id attempt log_offset at t h in
          let first : started job_id run_id attempt log_offset at t ≡ t = rw h none_claimed in
          rw first first
    ]

-- The arm for a report.
abbrev finished : Text → Text → ℤ → Text → Option ℤ → ℕ → CiTables → CiTables
finished job_id run_id attempt status exit_code at t =
    let (t', applied) = finish_job job_id attempt status exit_code at t in
    if not applied then t' else conclude_run run_id at t'

finish_job_untouched :
    (job_id : Text) (attempt : ℤ) (status : Text) (exit_code : Option ℤ) (at : ℕ) (t : CiTables)
    → (finish_job job_id attempt status exit_code at t).1 ≡ false
    → (finish_job job_id attempt status exit_code at t).0 ≡ t
unfolding finish_job
finish_job_untouched job_id attempt status exit_code at t h =
    ap (λ jobs. with_jobs jobs t) (update_where_untouched job_id _ _ t.jobs h)

finish_job_same :
    (job_id : Text) (attempt : ℤ) (status : Text) (exit_code : Option ℤ) (at : ℕ) (t u : CiTables)
    → (finish_job job_id attempt status exit_code at t).1 ≡ true
    → u.jobs ≡ (finish_job job_id attempt status exit_code at t).0.jobs
    → finish_job job_id attempt status exit_code at u ≡ (u, true)
unfolding finish_job
finish_job_same job_id attempt status exit_code at t u h same =
    let again =
      update_where_same job_id (λ job. same_attempt job.attempt attempt)
        (reported status exit_code at) t.jobs (λ row. refl) (λ row. refl) h in
    let here : update_where job_id (λ job. same_attempt job.attempt attempt)
          (reported status exit_code at) u.jobs
        ≡ (u.jobs, true) =
      rw same (
        again
        ∙ ap
            (λ touched. (
              (update_where job_id (λ job. same_attempt job.attempt attempt)
                  (reported status exit_code at) t.jobs).0,
              touched,
            ))
            h) in
    ap (λ r. (with_jobs r.0 u, r.1)) here

finished_twice :
    (job_id run_id : Text) (attempt : ℤ) (status : Text) (exit_code : Option ℤ) (at : ℕ)
    (t : CiTables)
    → finished job_id run_id attempt status exit_code at
        (finished job_id run_id attempt status exit_code at t)
      ≡ finished job_id run_id attempt status exit_code at t
finished_twice job_id run_id attempt status exit_code at t =
    elim (Bool-cases (finish_job job_id attempt status exit_code at t).1) [
      | inl h ↦
          let reported_once = (finish_job job_id attempt status exit_code at t).0 in
          let u = conclude_run run_id at reported_once in
          let first : finished job_id run_id attempt status exit_code at t ≡ u = rw h refl in
          let second =
            finish_job_same job_id attempt status exit_code at t u h
              (jobs-conclude_run run_id at reported_once) in
          rw first (rw second (conclude_run_twice run_id at reported_once))
      | inr h ↦
          let none_reported = finish_job_untouched job_id attempt status exit_code at t h in
          let first : finished job_id run_id attempt status exit_code at t ≡ t =
            rw h none_reported in
          rw first first
    ]

-- A CI event that is applied twice at one time leaves the tables that it left the first time.
pub apply_ci_event_twice :
    (uuid_text : ℕ → Text) (event : CiEvent) (at : ℕ) (t : CiTables)
    → apply_ci_event uuid_text event at (apply_ci_event uuid_text event at t)
      ≡ apply_ci_event uuid_text event at t
unfolding apply_ci_event rewrite run_by_id by_key upsert_run
apply_ci_event_twice uuid_text (run_queued run_id repo_id _ _ _ _ _ _ _ jobs) at t =
    queue_twice uuid_text _ (uuid_text run_id) (uuid_text repo_id) at jobs t
apply_ci_event_twice uuid_text (job_started job_id run_id _ attempt log_offset) at t =
    started_twice (uuid_text job_id) (uuid_text run_id) attempt log_offset at t
apply_ci_event_twice uuid_text (job_finished job_id run_id _ attempt conclusion exit_code) at t =
    finished_twice (uuid_text job_id) (uuid_text run_id) attempt (job_conclusion_as_str conclusion)
      exit_code at t
apply_ci_event_twice uuid_text (run_finished run_id _ conclusion) at t =
    ended_twice (uuid_text run_id) conclusion at t
