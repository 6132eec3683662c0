-- ===== src/Projector/Apply.antt =====
-- crates/forge-projector/src/lib.rs: what one record does to the rows. `serde_json` and the derived
-- deserialisers are not part of the repository's own text: what they make of a value is the argument
-- `Decoders`.
use crabforge.Prelude.{ℕ, Bool, true, false, Option, none, some, if◌then◌else◌}
use crabforge.Str.{Text, text_eq}
use crabforge.Types.Topics
use crabforge.Events.{UserEvent, RepoEvent, IssueEvent, PrEvent}
use crabforge.Events.Ci.{CiEvent}
use crabforge.Bus.Writer.{Bytes}
use crabforge.Bus.Tailer.{FetchedRecord}
use crabforge.Store.{Store}
use crabforge.Projector.Users.{apply_user_event}
use crabforge.Projector.Repos.{apply_repo_event}
use crabforge.Projector.Issues.{apply_issue_event}
use crabforge.Projector.Pulls.{apply_pr_event}
use crabforge.Projector.Runs.{apply_ci_event}

-- `decode_raw` and `RawEnvelope::parse` on a value that is there: the payload, and when it occurred.
pub record Decoders : Type 0 where
  pub uuid_text : ℕ → Text
  pub users : Bytes → Option (UserEvent × ℕ)
  pub issues : Bytes → Option (IssueEvent × ℕ)
  pub pulls : Bytes → Option (PrEvent × ℕ)
  pub ci : Bytes → Option (CiEvent × ℕ)
  pub repos : Bytes → Option (RepoEvent × ℕ)

-- One arm of `apply_decoded`: the rows, and whether the record was one that this build recognizes.
abbrev pub arm : {E : Type 0} → Option (E × ℕ) → (E → ℕ → Store) → Store → Store × Bool
arm none apply s = (s, false)
arm (some (event, at)) apply s = (apply event at, true)

unfoldable pub project_value : Decoders → Text → Bytes → Store → Store × Bool
unfolding apply_user_event apply_repo_event apply_issue_event apply_pr_event apply_ci_event text_eq
project_value d topic value s =
    if text_eq topic Topics.events_users
    then arm (d.users value)
        (λ event at. record s { users = apply_user_event d.uuid_text event at s.users }) s
    else if text_eq topic Topics.events_issues
    then arm (d.issues value)
        (λ event at. record s { issues = apply_issue_event d.uuid_text event at s.issues }) s
    else if text_eq topic Topics.events_prs
    then arm (d.pulls value)
        (λ event at. record s { pulls = apply_pr_event d.uuid_text event at s.pulls }) s
    else if text_eq topic Topics.events_ci
    then arm (d.ci value) (λ event at. record s { ci = apply_ci_event d.uuid_text event at s.ci }) s
    else if text_eq topic Topics.events_repos
    then arm (d.repos value)
        (λ event at. record s { repos = apply_repo_event d.uuid_text event at s.repos }) s
    else (s, false)

-- `apply_decoded`, as its statements execute. A tombstone is skipped.
unfoldable pub apply_decoded : Decoders → Text → FetchedRecord → Store → Store × Bool
unfolding project_value
apply_decoded d topic r s = elim r.value [
  | none ↦ (s, false)
  | some value ↦ project_value d topic value s
]
