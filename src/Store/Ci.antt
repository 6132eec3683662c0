-- ===== src/Store/Ci.antt =====
-- crates/forge-store/src/ci.rs: the `ci_runs` and `ci_jobs` tables.
use crabforge.Prelude.{ℕ, Bool, false, ◌||◌, List, Option, some, ◌==◌}
use crabforge.Str.{Text, codes, text_eq}
use crabforge.Types.Int.{ℤ}
use crabforge.Store.Table.{Table, by_key, upsert, update_where, rows_where, order_by}

pub record RunRecord : Type 0 where
  pub run_id : Text
  pub repo_id : Text
  pub number : ℤ
  pub workflow : Text
  pub event : Text
  pub head_oid : Text
  pub ref_name : Text
  pub actor_name : Text
  pub status : Text
  pub created_at : ℕ
  pub updated_at : ℕ
  pub started_at : Option ℕ
  pub finished_at : Option ℕ

pub record JobRecord : Type 0 where
  pub job_id : Text
  pub run_id : Text
  pub repo_id : Text
  pub name : Text
  pub image : Text
  pub status : Text
  pub attempt : ℤ
  pub exit_code : Option ℤ
  pub log_offset : Option ℤ
  pub created_at : ℕ
  pub updated_at : ℕ
  pub started_at : Option ℕ
  pub finished_at : Option ℕ

pub record CiTables : Type 0 where
  pub runs : Table RunRecord
  pub jobs : Table JobRecord

-- `RunRecord::is_finished`
unfoldable pub is_finished_run : RunRecord → Bool
unfolding text_eq
is_finished_run run =
    text_eq run.status (codes "success")
    || (text_eq run.status (codes "failed") || text_eq run.status (codes "cancelled"))

-- The `matches!` of `JobRecord::is_finished`, on a status.
unfoldable pub is_terminal : Text → Bool
unfolding text_eq
is_terminal status =
    text_eq status (codes "success")
    || (text_eq status (codes "failed")
        || (text_eq status (codes "timed_out")
            || (text_eq status (codes "infra_failed") || text_eq status (codes "cancelled"))))

-- `JobRecord::is_finished`
unfoldable pub is_finished_job : JobRecord → Bool
unfolding is_terminal
is_finished_job job = is_terminal job.status

-- The columns that `ON CONFLICT` sets.
abbrev pub merge_run : RunRecord → RunRecord → RunRecord
merge_run old new = record old {
  status = new.status;
  updated_at = new.updated_at;
  started_at = new.started_at;
  finished_at = new.finished_at;
}

unfoldable pub upsert_run : RunRecord → CiTables → CiTables
unfolding upsert
upsert_run run t = record t { runs = upsert merge_run run.run_id run t.runs }

-- The columns that `ON CONFLICT` sets.
abbrev pub merge_job : JobRecord → JobRecord → JobRecord
merge_job old new = record old {
  status = new.status;
  attempt = new.attempt;
  exit_code = new.exit_code;
  log_offset = new.log_offset;
  updated_at = new.updated_at;
  started_at = new.started_at;
  finished_at = new.finished_at;
}

unfoldable pub upsert_job : JobRecord → CiTables → CiTables
unfolding upsert
upsert_job job t = record t { jobs = upsert merge_job job.job_id job t.jobs }

-- The row after a claim.
abbrev pub claimed : ℤ → ℤ → ℕ → JobRecord → JobRecord
claimed attempt log_offset at job = record job {
  status = codes "running";
  attempt = attempt;
  log_offset = some log_offset;
  started_at = some at;
  updated_at = at;
}

unfoldable pub claim_job : Text → ℤ → ℤ → ℕ → CiTables → CiTables × Bool
unfolding update_where text_eq
claim_job job_id attempt log_offset at t =
    let (jobs, touched) =
      update_where job_id (λ job. text_eq job.status (codes "queued"))
        (claimed attempt log_offset at) t.jobs in
    (record t { jobs = jobs }, touched)

-- `=` on the `attempt` column
unfoldable pub same_attempt : ℤ → ℤ → Bool
same_attempt (ℤ.pos a) (ℤ.pos b) = a == b
same_attempt (ℤ.negsuc a) (ℤ.negsuc b) = a == b
same_attempt _ _ = false

-- The row after a report.
abbrev pub reported : Text → Option ℤ → ℕ → JobRecord → JobRecord
reported status exit_code at job = record job {
  status = status;
  exit_code = exit_code;
  finished_at = some at;
  updated_at = at;
}

unfoldable pub finish_job : Text → ℤ → Text → Option ℤ → ℕ → CiTables → CiTables × Bool
unfolding update_where same_attempt
finish_job job_id attempt status exit_code at t =
    let (jobs, touched) =
      update_where job_id (λ job. same_attempt job.attempt attempt) (reported status exit_code at)
        t.jobs in
    (record t { jobs = jobs }, touched)

unfoldable pub run_by_id : Text → CiTables → Option RunRecord
unfolding by_key
run_by_id run_id t = by_key run_id t.runs

unfoldable pub job_by_id : Text → CiTables → Option JobRecord
unfolding by_key
job_by_id job_id t = by_key job_id t.jobs

unfoldable pub jobs_of : Text → CiTables → List JobRecord
unfolding rows_where order_by text_eq
jobs_of run_id t = order_by (λ job. job.name) (rows_where (λ job. text_eq job.run_id run_id) t.jobs)
