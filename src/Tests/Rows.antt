-- ===== src/Tests/Rows.antt =====
-- Rows of pull requests, runs and jobs at concrete inputs.
use crabforge.Prelude.{ℕ, ◌≡◌, refl, true, false, List, [], ◌∷◌, none, some, is_empty, All}
use crabforge.Str.{Text, codes}
use crabforge.Types.Int.{pos}
use crabforge.Events.{PrEvent, mergeability_computed}
use crabforge.Events.Ci.{PlannedJobSpec, run_queued, job_started, job_finished, JobConclusion}
use crabforge.HashMap.{get}
use crabforge.Store.Table.Keyed.{IsRow}
use crabforge.Store.Pulls.{
  upsert_pull, is_merged, PullRecord, PullTables, is_open_pull, can_merge, pull_by_id,
}
use crabforge.Store.Ci.{is_finished_run, CiTables, run_by_id, jobs_of, finish_job}
use crabforge.Projector.Pulls.{apply_pr_event}
use crabforge.Projector.Pulls.Merged.{
  ArePlaced, IsMerged, apply_pr_event-ArePlaced, apply_pr_event-IsMerged,
}
use crabforge.Projector.Pulls.Checks.{mergeability_computed_lem}
use crabforge.Projector.Runs.{apply_ci_event, conclude_run}
use crabforge.Projector.Runs.Claim.{second_start}
use crabforge.Projector.Runs.Success.{IsGood, conclude_run_success}

abbrev uuid_text : ℕ → Text
uuid_text n = n ∷ []

abbrev opening : PrEvent
opening =
    PrEvent.opened 5 1 (pos 1) (codes "t") none 7 (codes "ann") (codes "dev") (codes "main")
      (1 ∷ []) (2 ∷ [])

abbrev no_pulls : PullTables
no_pulls = record { rows = []; reviews = [] }

abbrev pulls : PullTables
pulls = apply_pr_event uuid_text opening 10 no_pulls

pulls-ArePlaced : ArePlaced pulls
unfolding get
pulls-ArePlaced = apply_pr_event-ArePlaced uuid_text opening 10 no_pulls (λ k row h. cc)

abbrev merged_pulls : PullTables
merged_pulls = apply_pr_event uuid_text (PrEvent.merged 5 1 (3 ∷ []) 7 (codes "ann")) 20 pulls

merged_pulls-ArePlaced : ArePlaced merged_pulls
merged_pulls-ArePlaced =
    apply_pr_event-ArePlaced uuid_text (PrEvent.merged 5 1 (3 ∷ []) 7 (codes "ann")) 20 pulls
      pulls-ArePlaced

apply_pr_event-IsMerged_example :
    IsRow IsMerged
      (uuid_text 5)
      (apply_pr_event uuid_text (PrEvent.closed 5 1 7) 30 merged_pulls).rows
unfolding is_merged get apply_pr_event
apply_pr_event-IsMerged_example =
    apply_pr_event-IsMerged uuid_text (PrEvent.closed 5 1 7) 30 (uuid_text 5) merged_pulls refl
      merged_pulls-ArePlaced (_, refl, refl)

mergeability_computed_lem_example :
    (row' : PullRecord) × (pull_by_id
        (uuid_text 5)
        (apply_pr_event uuid_text (mergeability_computed 5 1 (1 ∷ []) (2 ∷ []) true []) 20 pulls)
      ≡ some row')
    × (can_merge row' ≡ true)
unfolding apply_pr_event upsert_pull pull_by_id is_open_pull
mergeability_computed_lem_example =
    mergeability_computed_lem uuid_text 5 1 (1 ∷ []) (2 ∷ []) true [] 20 _ pulls refl

abbrev two_jobs : List PlannedJobSpec
two_jobs =
    record { job_id = 8; name = codes "build"; image = codes "rust" }
    ∷ record { job_id = 9; name = codes "test"; image = codes "rust" }
    ∷ []

abbrev queued : CiTables
queued =
    apply_ci_event uuid_text
      (run_queued 6 1 (pos 1) (codes "ci.yml") (codes "ci") (codes "push") (1 ∷ []) (codes "main")
        (codes "ann") two_jobs)
      10 (record { runs = []; jobs = [] })

second_start_example :
    let once = apply_ci_event uuid_text (job_started 8 6 1 (pos 1) (pos 100)) 20 queued in
    apply_ci_event uuid_text (job_started 8 6 1 (pos 2) (pos 200)) 30 once ≡ once
second_start_example =
    second_start uuid_text 8 6 1 6 1 (pos 1) (pos 100) (pos 2) (pos 200) 20 30 queued

-- Both jobs have been claimed, the first has reported, and the second's report is stored.
abbrev both_reported : CiTables
both_reported =
    let claimed =
      apply_ci_event uuid_text (job_started 9 6 1 (pos 1) (pos 0)) 30
        (apply_ci_event uuid_text (job_started 8 6 1 (pos 1) (pos 0)) 20 queued) in
    (finish_job (uuid_text 9) (pos 1) (codes "success") (some (pos 0)) 50 (
      apply_ci_event uuid_text (job_finished 8 6 1 (pos 1) JobConclusion.success (some (pos 0))) 40
        claimed)).0

conclude_run_success_example :
    (is_empty (jobs_of (uuid_text 6) both_reported) ≡ false)
    × All IsGood (jobs_of (uuid_text 6) both_reported)
unfolding apply_ci_event run_by_id conclude_run finish_job is_finished_run
conclude_run_success_example =
    conclude_run_success (uuid_text 6) 50 _ _ both_reported refl refl refl refl
