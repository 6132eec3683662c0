-- ===== src/Projector/Twice/Runs/Concluded.antt =====
-- A run that is concluded twice.
use crabforge.Prelude.{
  ◌≡◌, ◌⊎◌, ◌∙◌, refl, ap, ℕ, true, false, inl, inr, Option-cases, Bool-cases, none, some, arith,
}
use crabforge.Str.{Text, text_eq}
use crabforge.Str.Laws.{text_eq_iff}
use crabforge.Events.Ci.{RunConclusion, run_conclusion_as_str}
use crabforge.HashMap
use crabforge.Store.Table.{Table, by_key}
use crabforge.Store.Table.Laws.{
  rewrite, rewrite-rewrite, upsert-upsert, get-upsert_at, get-upsert_ne,
}
use crabforge.Store.Ci.{RunRecord, CiTables, merge_run, upsert_run, run_by_id, is_finished_run}
use crabforge.Projector.Runs.{run_conclusion, concluded, conclude_run}

abbrev with_runs : Table RunRecord → CiTables → CiTables
with_runs runs t = record t { runs = runs }

-- The ways in which `conclude_run` ends.
pub conclude_run_cases :
    (run_id : Text) (at : ℕ) (t : CiTables)
    → (conclude_run run_id at t ≡ t)
      ⊎ ((conclusion : RunConclusion) × (run : RunRecord) × (run_conclusion run_id t
            ≡ some conclusion)
          × (run_by_id run_id t ≡ some run)
          × (is_finished_run run ≡ false)
          × (conclude_run run_id at t ≡ upsert_run (concluded conclusion at run) t))
unfolding conclude_run
conclude_run_cases run_id at t = elim (Option-cases (run_conclusion run_id t)) [
  | inl e ↦ inl (rw (e, conclude_run) refl)
  | inr (conclusion, e) ↦ elim (Option-cases (run_by_id run_id t)) [
    | inl e' ↦ inl (rw (e, conclude_run, e') refl)
    | inr (run, e') ↦ elim (Bool-cases (is_finished_run run)) [
      | inl h ↦ inl (rw (e, conclude_run, e', h) refl)
      | inr h ↦ inr (conclusion, run, e, e', h, rw (e, conclude_run, e', h) refl)
    ]
  ]
]

pub jobs-conclude_run :
    (run_id : Text) (at : ℕ) (t : CiTables) → (conclude_run run_id at t).jobs ≡ t.jobs
unfolding upsert_run
jobs-conclude_run run_id at t = elim (conclude_run_cases run_id at t) [
  | inl e ↦ ap (λ u. u.jobs) e
  | inr (conclusion, run, _, _, _, e) ↦ ap (λ u. u.jobs) e
]

concluded_is_finished :
    (conclusion : RunConclusion) (at : ℕ) (run : RunRecord)
    → is_finished_run (concluded conclusion at run) ≡ true
unfolding is_finished_run run_conclusion_as_str text_eq
concluded_is_finished RunConclusion.success at run = refl
concluded_is_finished RunConclusion.failed at run = refl
concluded_is_finished RunConclusion.cancelled at run = refl

conclude_run_finished :
    (run_id : Text) (at : ℕ) (run : RunRecord) (t : CiTables)
    → run_by_id run_id t ≡ some run
    → is_finished_run run ≡ true
    → conclude_run run_id at t ≡ t
unfolding conclude_run
conclude_run_finished run_id at run t r h = elim (Option-cases (run_conclusion run_id t)) [
  | inl e ↦ rw (e, conclude_run) refl
  | inr (conclusion, e) ↦ rw (e, conclude_run, r, h) refl
]

conclude_run_open :
    (run_id : Text) (at : ℕ) (conclusion : RunConclusion) (run : RunRecord) (t : CiTables)
    → run_conclusion run_id t ≡ some conclusion
    → run_by_id run_id t ≡ some run
    → is_finished_run run ≡ false
    → conclude_run run_id at t ≡ upsert_run (concluded conclusion at run) t
unfolding conclude_run
conclude_run_open run_id at conclusion run t e r h = rw (e, conclude_run, r, h) refl

-- Concluding again, after the run's row was written.
upsert_run-concluded :
    (run_id : Text) (at : ℕ) (conclusion : RunConclusion) (run : RunRecord) (t : CiTables)
    → run_conclusion run_id t ≡ some conclusion
    → run_by_id run_id t ≡ some run
    → is_finished_run run ≡ false
    → (let once = upsert_run (concluded conclusion at run) t in conclude_run run_id at once ≡ once)
unfolding upsert_run run_by_id by_key run_conclusion
upsert_run-concluded run_id at conclusion run t c r h =
    let new = concluded conclusion at run in
    let runs = t.runs in
    elim (Bool-cases (text_eq run.run_id run_id)) [
      | inl same ↦
          let key = (text_eq_iff run.run_id run_id).0 same in
          let found : run_by_id run_id (upsert_run new t) ≡ some (merge_run run new) =
            get-upsert_at merge_run run.run_id run_id run new runs key r in
          conclude_run_finished run_id at (merge_run run new) (upsert_run new t) found
            (concluded_is_finished conclusion at run)
      | inr other ↦
          let found : run_by_id run_id (upsert_run new t) ≡ some run =
            get-upsert_ne merge_run run_id run.run_id new runs
              (λ same. ground (arith, text_eq_iff run.run_id run_id))
            ∙ r in
          conclude_run_open run_id at conclusion run (upsert_run new t) c found h
          ∙ ap (λ runs. with_runs runs t)
              (upsert-upsert merge_run run.run_id new runs refl (λ old. refl))
    ]

pub conclude_run_twice :
    (run_id : Text) (at : ℕ) (t : CiTables)
    → conclude_run run_id at (conclude_run run_id at t) ≡ conclude_run run_id at t
conclude_run_twice run_id at t = elim (conclude_run_cases run_id at t) [
  | inl e ↦ ap (conclude_run run_id at) e
  | inr (conclusion, run, c, r, h, e) ↦ rw e (upsert_run-concluded run_id at conclusion run t c r h)
]

-- The arm for a run's end.
abbrev pub ended : Text → RunConclusion → ℕ → CiTables → CiTables
ended run_id conclusion at t = elim (run_by_id run_id t) [
  | none ↦ t
  | some run ↦ upsert_run (concluded conclusion at run) t
]

ended_rows :
    (run_id : Text) (conclusion : RunConclusion) (at : ℕ) (t : CiTables)
    → ended run_id conclusion at t
      ≡ with_runs (rewrite merge_run (λ r. r.run_id) run_id (concluded conclusion at) t.runs) t
unfolding run_by_id by_key upsert_run rewrite
ended_rows run_id conclusion at t = elim (Option-cases (HashMap.get run_id t.runs)) [
  | inl e ↦ rw (e, ended, rewrite) refl
  | inr (run, e) ↦ rw (e, ended, rewrite) refl
]

pub ended_twice :
    (run_id : Text) (conclusion : RunConclusion) (at : ℕ) (t : CiTables)
    → ended run_id conclusion at (ended run_id conclusion at t) ≡ ended run_id conclusion at t
ended_twice run_id conclusion at t = rw (ended_rows run_id conclusion at t) (
    ended_rows run_id conclusion at _
    ∙ ap (λ runs. with_runs runs t)
        (rewrite-rewrite merge_run (λ r. r.run_id) run_id (concluded conclusion at) t.runs
          (λ row. refl) (λ row. refl) (λ row. refl) (λ old row. refl)))
