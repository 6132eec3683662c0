-- ===== src/Projector/Twice/Runs/Queued.antt =====
-- A run that is queued twice.
use crabforge.Prelude.{
  ◌≡◌, ◌∙◌, refl, sym, ap, ℕ, inl, inr, List, [], ◌∷◌, All, Option-cases, none, some, arith,
  Bool-cases,
}
use crabforge.Str.{Text, codes, text_eq}
use crabforge.Str.Laws.{text_eq_iff}
use crabforge.Types.Int.{pos}
use crabforge.Events.Ci.{PlannedJobSpec}
use crabforge.HashMap
use crabforge.HashMap.Laws.{get-insert_self}
use crabforge.Store.Table.{Table, upsert}
use crabforge.Store.Table.Laws.{upsert-some, upsert-none, insert-get, get-upsert_ne, upsert-upsert}
use crabforge.Store.Ci.{
  RunRecord, JobRecord, CiTables, merge_job, merge_run, upsert_run, upsert_job,
}
use crabforge.Projector.Runs.{queue_jobs}

-- A row with the columns of a queued job.
abbrev reset : ℕ → JobRecord → JobRecord
reset at row = record row {
  status = codes "queued";
  attempt = pos 0;
  exit_code = none;
  log_offset = none;
  updated_at = at;
  started_at = none;
  finished_at = none;
}

-- The row that is queued for a specification.
abbrev planned : (ℕ → Text) → Text → Text → ℕ → PlannedJobSpec → JobRecord
planned uuid_text run_id repo_id at spec = record {
  job_id = uuid_text spec.job_id;
  run_id = run_id;
  repo_id = repo_id;
  name = spec.name;
  image = spec.image;
  status = codes "queued";
  attempt = pos 0;
  exit_code = none;
  log_offset = none;
  created_at = at;
  updated_at = at;
  started_at = none;
  finished_at = none;
}

-- The job of key `k` is there, and queued at that time.
abbrev IsQueued : ℕ → Text → Table JobRecord → Type 0
IsQueued at k t = (row : JobRecord) × (HashMap.get k t ≡ some row) × (reset at row ≡ row)

upsert-IsQueued :
    (uuid_text : ℕ → Text) (run_id repo_id : Text) (at : ℕ) (spec : PlannedJobSpec)
    (t : Table JobRecord)
    → IsQueued at
        (uuid_text spec.job_id)
        (upsert merge_job (uuid_text spec.job_id) (planned uuid_text run_id repo_id at spec) t)
upsert-IsQueued uuid_text run_id repo_id at spec t =
    let k = uuid_text spec.job_id in
    let new = planned uuid_text run_id repo_id at spec in
    elim (Option-cases (HashMap.get k t)) [
      | inl e ↦ rw (upsert-none merge_job k new t e) (new, get-insert_self k new t, refl)
      | inr (old, e) ↦
          rw (upsert-some merge_job k old new t e)
            (merge_job old new, get-insert_self k (merge_job old new) t, refl)
    ]

upsert-IsQueued_kept :
    (uuid_text : ℕ → Text) (run_id repo_id : Text) (at : ℕ) (spec : PlannedJobSpec) (j : Text)
    (t : Table JobRecord)
    → IsQueued at j t
    → IsQueued at j
        (upsert merge_job (uuid_text spec.job_id) (planned uuid_text run_id repo_id at spec) t)
upsert-IsQueued_kept uuid_text run_id repo_id at spec j t (row, e, h) =
    let k = uuid_text spec.job_id in
    elim (Bool-cases (text_eq k j)) [
      | inl same ↦
          rw (sym ((text_eq_iff k j).0 same)) (upsert-IsQueued uuid_text run_id repo_id at spec t)
      | inr other ↦
          (row, get-upsert_ne merge_job j k _ t (λ same. ground (arith, text_eq_iff k j)) ∙ e, h)
    ]

queue_jobs-IsQueued_kept :
    (uuid_text : ℕ → Text) (run_id repo_id : Text) (at : ℕ) (specs : List PlannedJobSpec) (j : Text)
    (t : CiTables)
    → IsQueued at j t.jobs
    → IsQueued at j (queue_jobs uuid_text run_id repo_id at specs t).jobs
unfolding queue_jobs upsert_job
queue_jobs-IsQueued_kept uuid_text run_id repo_id at [] j t h = h
queue_jobs-IsQueued_kept uuid_text run_id repo_id at (spec ∷ specs) j t h =
    queue_jobs-IsQueued_kept uuid_text run_id repo_id at specs j _
      (upsert-IsQueued_kept uuid_text run_id repo_id at spec j t.jobs h)

abbrev AreQueued : (ℕ → Text) → ℕ → List PlannedJobSpec → Table JobRecord → Type 0
AreQueued uuid_text at specs t = All (λ spec. IsQueued at (uuid_text spec.job_id) t) specs

queue_jobs-AreQueued :
    (uuid_text : ℕ → Text) (run_id repo_id : Text) (at : ℕ) (specs : List PlannedJobSpec)
    (t : CiTables)
    → AreQueued uuid_text at specs (queue_jobs uuid_text run_id repo_id at specs t).jobs
unfolding queue_jobs upsert_job
queue_jobs-AreQueued uuid_text run_id repo_id at [] t = tt
queue_jobs-AreQueued uuid_text run_id repo_id at (spec ∷ specs) t = (
  queue_jobs-IsQueued_kept uuid_text run_id repo_id at specs (uuid_text spec.job_id) _
      (upsert-IsQueued uuid_text run_id repo_id at spec t.jobs),
  queue_jobs-AreQueued uuid_text run_id repo_id at specs _,
)

-- Jobs that are queued already are left as they are.
queue_jobs_queued :
    (uuid_text : ℕ → Text) (run_id repo_id : Text) (at : ℕ) (specs : List PlannedJobSpec)
    (t : CiTables)
    → AreQueued uuid_text at specs t.jobs
    → queue_jobs uuid_text run_id repo_id at specs t ≡ t
unfolding queue_jobs upsert_job
queue_jobs_queued uuid_text run_id repo_id at [] t h = refl
queue_jobs_queued uuid_text run_id repo_id at (spec ∷ specs) t ((row, e, h), hs) =
    let k = uuid_text spec.job_id in
    let new = planned uuid_text run_id repo_id at spec in
    let same : upsert merge_job k new t.jobs ≡ t.jobs =
      upsert-some merge_job k row new t.jobs e ∙ rw h (insert-get k row t.jobs e) in
    let whole : upsert_job new t ≡ t = ap (λ jobs. record t { jobs = jobs }) same in
    rw whole (queue_jobs_queued uuid_text run_id repo_id at specs t hs)

runs-queue_jobs :
    (uuid_text : ℕ → Text) (run_id repo_id : Text) (at : ℕ) (specs : List PlannedJobSpec)
    (t : CiTables)
    → (queue_jobs uuid_text run_id repo_id at specs t).runs ≡ t.runs
unfolding queue_jobs upsert_job
runs-queue_jobs uuid_text run_id repo_id at [] t = refl
runs-queue_jobs uuid_text run_id repo_id at (spec ∷ specs) t =
    runs-queue_jobs uuid_text run_id repo_id at specs _

upsert_run_again :
    (run : RunRecord) (t : CiTables) (runs : Table RunRecord)
    → t.runs ≡ upsert merge_run run.run_id run runs
    → upsert_run run t ≡ t
unfolding upsert_run
upsert_run_again run t runs h =
    ap (λ runs. record t { runs = runs })
      (rw h (upsert-upsert merge_run run.run_id run runs refl (λ old. refl)))

pub queue_twice :
    (uuid_text : ℕ → Text) (run : RunRecord) (run_id repo_id : Text) (at : ℕ)
    (specs : List PlannedJobSpec) (t : CiTables)
    → (let once = queue_jobs uuid_text run_id repo_id at specs (upsert_run run t) in
        queue_jobs uuid_text run_id repo_id at specs (upsert_run run once) ≡ once)
unfolding upsert_run
queue_twice uuid_text run run_id repo_id at specs t =
    let once = queue_jobs uuid_text run_id repo_id at specs (upsert_run run t) in
    let same =
      upsert_run_again run once t.runs
        (runs-queue_jobs uuid_text run_id repo_id at specs (upsert_run run t)) in
    ap (queue_jobs uuid_text run_id repo_id at specs) same
    ∙ queue_jobs_queued uuid_text run_id repo_id at specs once
        (queue_jobs-AreQueued uuid_text run_id repo_id at specs (upsert_run run t))
