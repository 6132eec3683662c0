-- ===== src/Projector/Runs/Success.antt =====
-- What a run that the projector concludes as a success says of its jobs.
use crabforge.Prelude.{
  ◌≡◌, ◌∙◌, refl, sym, ap, ◌⊎◌, inl, inr, ℕ, Bool, true, false, List, [], ◌∷◌, some, arith,
  if◌then◌else◌, any, all, is_empty, map, All, Bool-cases,
}
use crabforge.Str.{Text, codes, text_eq}
use crabforge.Str.Laws.{text_eq_iff}
use crabforge.Events.Ci.{
  JobConclusion, timed_out, infra_failed, RunConclusion, from_jobs, run_conclusion_as_str,
}
use crabforge.Events.Ci.Conclusion.{is_failure, conclusion_by_quantifiers, from_jobs_lem}
use crabforge.Store.Table.{by_key}
use crabforge.Store.Table.Laws.{get-upsert_at, get-upsert_ne}
use crabforge.Store.Ci.{
  RunRecord, JobRecord, CiTables, merge_run, upsert_run, run_by_id, jobs_of, is_finished_run,
  is_finished_job,
}
use crabforge.Projector.Runs.{conclusion_of, run_conclusion, concluded, conclude_run}
use crabforge.Projector.Twice.Runs.Concluded.{conclude_run_cases}

-- A job that succeeded or was cancelled.
abbrev pub IsGood : JobRecord → Type 0
IsGood job = (job.status ≡ codes "success") ⊎ (job.status ≡ codes "cancelled")

conclusion_of-IsGood :
    (job : JobRecord) → is_failure (conclusion_of job.status) ≡ false → IsGood job
unfolding conclusion_of
conclusion_of-IsGood job h = elim (Bool-cases (text_eq job.status (codes "success"))) [
  | inl e ↦ inl ((text_eq_iff job.status (codes "success")).0 e)
  | inr e ↦ elim (Bool-cases (text_eq job.status (codes "cancelled"))) [
    | inl e' ↦ inr ((text_eq_iff job.status (codes "cancelled")).0 e')
    | inr e' ↦ absurd (
        bad (text_eq job.status (codes "timed_out")) (text_eq job.status (codes "infra_failed"))
          (rw (e, conclusion_of, e') at h))
  ]
]
  where
    bad :
        (a b : Bool)
        → is_failure (if a then timed_out else if b then infra_failed else JobConclusion.failed)
          ≡ false
        → ⊥
    bad true b k = cc
    bad false true k = cc
    bad false false k = cc

jobs-IsGood :
    (jobs : List JobRecord)
    → any is_failure (map (λ job. conclusion_of job.status) jobs) ≡ false
    → All IsGood jobs
jobs-IsGood [] h = tt
jobs-IsGood (job ∷ jobs) h = elim (Bool-cases (is_failure (conclusion_of job.status))) [
  | inl e ↦ let some_failed = rw e at h in absurd cc
  | inr e ↦ (conclusion_of-IsGood job e, jobs-IsGood jobs (rw e at h))
]

run_conclusion-some :
    (run_id : Text) (t : CiTables) {c : RunConclusion}
    → run_conclusion run_id t ≡ some c
    → (is_empty (jobs_of run_id t) ≡ false)
      × (c ≡ conclusion_by_quantifiers (map (λ job. conclusion_of job.status) (jobs_of run_id t)))
unfolding run_conclusion
run_conclusion-some run_id t {c} h = elim (Bool-cases (is_empty (jobs_of run_id t))) [
  | inl e ↦ let nothing = rw e at h in absurd cc
  | inr e ↦ elim (Bool-cases (all is_finished_job (jobs_of run_id t))) [
    | inl e' ↦
        let cs = map (λ job. conclusion_of job.status) (jobs_of run_id t) in
        let made : some (from_jobs cs) ≡ some c = rw (e, e') at h in
        let same : from_jobs cs ≡ c = cc in (e, sym same ∙ from_jobs_lem cs)
    | inr e' ↦ let nothing = rw (e, e') at h in absurd cc
  ]
]

as_str-success :
    (c : RunConclusion) → run_conclusion_as_str c ≡ codes "success" → c ≡ RunConclusion.success
unfolding run_conclusion_as_str text_eq
as_str-success RunConclusion.success h = refl
as_str-success RunConclusion.failed h =
    let same = (text_eq_iff (codes "failed") (codes "success")).1 h in absurd cc
as_str-success RunConclusion.cancelled h =
    let same = (text_eq_iff (codes "cancelled") (codes "success")).1 h in absurd cc

by_quantifiers-success :
    (cs : List JobConclusion)
    → conclusion_by_quantifiers cs ≡ RunConclusion.success
    → any is_failure cs ≡ false
by_quantifiers-success cs h = elim (Bool-cases (any is_failure cs)) [
  | inl e ↦ let failed = rw e at h in absurd cc
  | inr e ↦ e
]

-- What the row of a run is after its conclusion was written.
row_after :
    (run_id : Text) (at : ℕ) (c : RunConclusion) (run : RunRecord) (t : CiTables) {run' : RunRecord}
    → run_by_id run_id t ≡ some run
    → run_by_id run_id (upsert_run (concluded c at run) t) ≡ some run'
    → (run'.status ≡ run.status) ⊎ (run'.status ≡ run_conclusion_as_str c)
unfolding run_by_id by_key upsert_run
row_after run_id at c run t {run'} e h =
    let new = concluded c at run in
    elim (Bool-cases (text_eq run.run_id run_id)) [
      | inl same ↦
          let here =
            get-upsert_at merge_run run.run_id run_id run new t.runs
              ((text_eq_iff run.run_id run_id).0 same) e in
          let row : some run' ≡ some (merge_run run new) = sym h ∙ here in
          let eq : run' ≡ merge_run run new = cc in inr (ap (λ r. r.status) eq)
      | inr other ↦
          let there =
            get-upsert_ne merge_run run_id run.run_id new t.runs
              (λ same. ground (arith, text_eq_iff run.run_id run_id)) in
          let row : some run' ≡ some run = sym h ∙ (there ∙ e) in
          let eq : run' ≡ run = cc in inl (ap (λ r. r.status) eq)
    ]

success_is_finished : (run : RunRecord) → run.status ≡ codes "success" → is_finished_run run ≡ true
unfolding is_finished_run text_eq
success_is_finished run h = rw h refl

-- If a run that was not over has the status "success" after the projector tried to conclude it, then the
-- run has jobs, and each of them succeeded or was cancelled.
pub conclude_run_success :
    (run_id : Text) (at : ℕ) (run run' : RunRecord) (t : CiTables)
    → run_by_id run_id t ≡ some run
    → is_finished_run run ≡ false
    → run_by_id run_id (conclude_run run_id at t) ≡ some run'
    → run'.status ≡ codes "success"
    → (is_empty (jobs_of run_id t) ≡ false) × All IsGood (jobs_of run_id t)
conclude_run_success run_id at run run' t e running h good = elim (conclude_run_cases run_id at t) [
  | inl same ↦
      let row : some run' ≡ some run = sym h ∙ (ap (run_by_id run_id) same ∙ e) in
      let eq : run' ≡ run = cc in
      let finished = success_is_finished run (ap (λ r. r.status) (sym eq) ∙ good) in absurd cc
  | inr (c, found, made, e', _, after) ↦
      elim (row_after run_id at c found t e' (ap (run_by_id run_id) (sym after) ∙ h)) [
        | inl kept ↦
            let row : some found ≡ some run = sym e' ∙ e in
            let eq : found ≡ run = cc in
            let finished =
              success_is_finished run (ap (λ r. r.status) (sym eq) ∙ (sym kept ∙ good)) in
            absurd cc
        | inr written ↦
            let (present, by_jobs) = run_conclusion-some run_id t made in
            let is_success = as_str-success c (sym written ∙ good) in
            (
              present,
              jobs-IsGood (jobs_of run_id t) (
                  by_quantifiers-success (map (λ job. conclusion_of job.status) (jobs_of run_id t))
                    (sym by_jobs ∙ is_success)),
            )
      ]
]
