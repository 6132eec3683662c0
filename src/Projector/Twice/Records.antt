-- ===== src/Projector/Twice/Records.antt =====
-- A record that is delivered twice.
use crabforge.Prelude.{
  ◌≡◌, refl, ap, ℕ, Bool, true, false, inl, inr, Option, Option-cases, none, some, if◌then◌else◌,
}
use crabforge.Str.{Text, text_eq}
use crabforge.Types.Topics
use crabforge.Bus.Writer.{Bytes}
use crabforge.Bus.Tailer.{FetchedRecord}
use crabforge.Store.{Store}
use crabforge.Projector.Apply.{Decoders, arm, project_value, apply_decoded}
use crabforge.Projector.Users.{apply_user_event}
use crabforge.Projector.Repos.{apply_repo_event}
use crabforge.Projector.Issues.{apply_issue_event}
use crabforge.Projector.Pulls.{apply_pr_event}
use crabforge.Projector.Runs.{apply_ci_event}
use crabforge.Projector.Twice.{apply_user_event_twice, apply_repo_event_twice}
use crabforge.Projector.Twice.Issues.{apply_issue_event_twice}
use crabforge.Projector.Twice.Pulls.{apply_pr_event_twice}
use crabforge.Projector.Twice.Runs.{apply_ci_event_twice}

-- An arm is stable if what it applies is.
arm_twice :
    {E : Type 0} (decoded : Option (E × ℕ)) (apply : E → ℕ → Store → Store) (s : Store)
    → ((event : E) (at : ℕ) → apply event at (apply event at s) ≡ apply event at s)
    → (let once = arm decoded (λ event at. apply event at s) s in
        arm decoded (λ event at. apply event at once.0) once.0 ≡ once)
arm_twice none apply s h = refl
arm_twice (some (event, at)) apply s h = ap (λ s. (s, true)) (h event at)

-- Applying twice is applying once.
abbrev IsStable : (Store → Store × Bool) → Type 0
IsStable f = (s : Store) → f (f s).0 ≡ f s

branch_twice :
    (test : Bool) (f g : Store → Store × Bool)
    → IsStable f
    → IsStable g
    → IsStable (λ s. if test then f s else g s)
branch_twice true f g hf hg s = hf s
branch_twice false f g hf hg s = hg s

arm-IsStable :
    {E : Type 0} (decoded : Option (E × ℕ)) (apply : E → ℕ → Store → Store)
    → ((event : E) (at : ℕ) (s : Store) → apply event at (apply event at s) ≡ apply event at s)
    → IsStable (λ s. arm decoded (λ event at. apply event at s) s)
arm-IsStable decoded apply h s = arm_twice decoded apply s (λ event at. h event at s)

project_value-IsStable :
    (d : Decoders) (topic : Text) (value : Bytes) → IsStable (project_value d topic value)
unfolding project_value
project_value-IsStable d topic value =
    branch_twice (text_eq topic Topics.events_users) _ _
      (arm-IsStable (d.users value)
        (λ event at s. record s { users = apply_user_event d.uuid_text event at s.users })
        (λ event at s.
          ap (λ users. record s { users = users })
            (apply_user_event_twice d.uuid_text event at s.users)))
      (branch_twice (text_eq topic Topics.events_issues) _ _
        (arm-IsStable (d.issues value)
          (λ event at s. record s { issues = apply_issue_event d.uuid_text event at s.issues })
          (λ event at s.
            ap (λ issues. record s { issues = issues })
              (apply_issue_event_twice d.uuid_text event at s.issues)))
        (branch_twice (text_eq topic Topics.events_prs) _ _
          (arm-IsStable (d.pulls value)
            (λ event at s. record s { pulls = apply_pr_event d.uuid_text event at s.pulls })
            (λ event at s.
              ap (λ pulls. record s { pulls = pulls })
                (apply_pr_event_twice d.uuid_text event at s.pulls)))
          (branch_twice (text_eq topic Topics.events_ci) _ _
            (arm-IsStable (d.ci value)
              (λ event at s. record s { ci = apply_ci_event d.uuid_text event at s.ci })
              (λ event at s.
                ap (λ ci. record s { ci = ci }) (apply_ci_event_twice d.uuid_text event at s.ci)))
            (branch_twice (text_eq topic Topics.events_repos) _ _
              (arm-IsStable (d.repos value)
                (λ event at s. record s { repos = apply_repo_event d.uuid_text event at s.repos })
                (λ event at s.
                  ap (λ repos. record s { repos = repos })
                    (apply_repo_event_twice d.uuid_text event at s.repos)))
              (λ s. refl)))))

-- On every topic, a record that is applied a second time, right after the first, changes nothing and
-- is recognized or skipped as it was the first time.
pub apply_decoded_twice :
    (d : Decoders) (topic : Text) (r : FetchedRecord) (s : Store)
    → apply_decoded d topic r (apply_decoded d topic r s).0 ≡ apply_decoded d topic r s
unfolding apply_decoded
apply_decoded_twice d topic r s = elim (Option-cases r.value) [
  | inl e ↦ rw (e, apply_decoded) (rw (e, apply_decoded) refl)
  | inr (value, e) ↦
      rw (e, apply_decoded) (rw (e, apply_decoded) (project_value-IsStable d topic value s))
]
