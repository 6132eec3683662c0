-- ===== src/Command/Service.antt =====
-- crates/forge-command/src/lib.rs: the commands on users, repositories, issues and references.
pub mod Hydrated
pub mod Push
use crabforge.Prelude.{
  ℕ, suc, Bool, true, false, ◌||◌, List, [], ◌∷◌, ◌++◌, Option, none, some, if◌then◌else◌, is_empty,
  Result, ok, err, is_err,
}
use crabforge.Str.{Text, codes}
use crabforge.Types.Names.{Username, parse_username, parse_repo_name, full_name_lower}
use crabforge.Types.Oid.{Oid}
use crabforge.Types.Int.{succ_i64}
use crabforge.Types.Topics
use crabforge.Events.{
  DomainEvent, user, repo, issue, git_ref, Visibility, registered, created, IssueEvent, commented,
  ref_updated,
}
use crabforge.Bus.Writer.{PendingRecord, WriteError, Run, returned, state_record, tombstone}
use crabforge.Command.Catalog.{
  Catalog, Claim, issue_counter, user_key, repo_key, issue_counter_key, apply_claim,
  is_username_taken, is_repo_name_taken, next_issue_number,
}
use crabforge.Command.Refs.{RefMap, RefUpdate, RefResult, ref_key, check, set_ref}
use crabforge.Command.Platform.{Platform}
use crabforge.Command.State.{
  CommandError, username_taken, repo_exists, invalid_name, topic, Outcome, Service, Ambient,
  validated, non_blank, max_title, max_body, pending, with_event, commit,
}

pub record RegisterUser : Type 0 where
  pub username : Text
  pub email : Text
  pub password_hash : Text

pub record CreateRepo : Type 0 where
  pub owner : ℕ
  pub owner_name : Username
  pub name : Text
  pub description : Option Text
  pub visibility : Visibility

pub record OpenIssue : Type 0 where
  pub repo : ℕ
  pub author : ℕ
  pub author_name : Text
  pub title : Text
  pub body : Option Text

pub record CommentOnIssue : Type 0 where
  pub repo : ℕ
  pub issue : ℕ
  pub author : ℕ
  pub author_name : Text
  pub body : Text

-- An event and the claim that is written with it; the catalog takes the claim once both landed.
unfoldable pub commit_claim :
    Platform
    → Ambient
    → Service
    → DomainEvent
    → ℕ
    → Text
    → Claim
    → Run (Service × Result Outcome CommandError)
commit_claim p a s event actor key claim =
    commit a s
      (with_event (pending p a 0 event (some actor))
        (ok (state_record Topics.meta_catalog key (p.encode_claim claim) ∷ [])))
      (apply_claim p.decode_claim key (some (p.encode_claim claim)) s.catalog) s.refs
      (λ c. record { id = a.id; committed = c })

-- One event and no change of the service's state; `id` is the answer.
unfoldable pub commit_event :
    Platform
    → Ambient
    → Service
    → DomainEvent
    → Option ℕ
    → ℕ
    → Run (Service × Result Outcome CommandError)
commit_event p a s event actor id =
    commit a s (with_event (pending p a 0 event actor) (ok [])) s.catalog s.refs
      (λ c. record { id = id; committed = c })

unfoldable pub register_user :
    Platform → Ambient → Service → RegisterUser → Run (Service × Result Outcome CommandError)
register_user p a s request = elim (parse_username request.username) [
  | err e ↦ returned (s, err (invalid_name e))
  | ok username ↦
      if is_username_taken username.lower s.catalog
      then returned (s, err username_taken)
      else commit_claim p a s
          (user (registered a.id username.raw username.lower request.email request.password_hash))
          a.id (user_key username.lower) (Claim.user a.id)
]

unfoldable pub create_repo :
    Platform → Ambient → Service → CreateRepo → Run (Service × Result Outcome CommandError)
create_repo p a s request = elim (parse_repo_name request.name) [
  | err e ↦ returned (s, err (invalid_name e))
  | ok name ↦
      let full_name = full_name_lower request.owner_name name in
      if is_repo_name_taken full_name s.catalog
      then returned (s, err repo_exists)
      else if a.topic_ready
      then commit_claim p a s
          (repo (
            created a.id request.owner request.owner_name.raw name.raw full_name request.description
              (codes "main") request.visibility))
          request.owner (repo_key full_name) (Claim.repo a.id)
      else returned (s, err topic)
]

unfoldable pub open_issue :
    Platform → Ambient → Service → OpenIssue → Run (Service × Result Outcome CommandError)
open_issue p a s request = elim (validated request.title (codes "title") max_title) [
  | err e ↦ returned (s, err e)
  | ok title ↦
      let number = next_issue_number p.wire.uuid_text request.repo s.catalog in
      commit_claim p a s
        (issue (
          IssueEvent.opened a.id request.repo number title (non_blank request.body) request.author
            request.author_name))
        request.author (issue_counter_key p.wire.uuid_text request.repo)
        (issue_counter (succ_i64 number))
]

unfoldable pub comment_on_issue :
    Platform → Ambient → Service → CommentOnIssue → Run (Service × Result Outcome CommandError)
comment_on_issue p a s request = elim (validated request.body (codes "comment") max_body) [
  | err e ↦ returned (s, err e)
  | ok body ↦
      commit_event p a s
        (issue (commented a.id request.issue request.repo request.author request.author_name body))
        (some request.author) a.id
]

unfoldable pub set_issue_state :
    Platform
    → Ambient
    → Service
    → (repo issue actor : ℕ) (open_it : Bool) → Run (Service × Result Outcome CommandError)
set_issue_state p a s repo_id issue_id actor open_it =
    commit_event p a s
      (issue (
        if open_it
        then IssueEvent.reopened issue_id repo_id actor
        else IssueEvent.closed issue_id repo_id actor))
      (some actor) issue_id

-- The loop that checks every update against the references as they are.
unfoldable pub check_all : Platform → ℕ → RefMap → List RefUpdate → List RefResult
check_all p repo_id refs [] = []
check_all p repo_id refs (update ∷ updates) =
    record { name = update.name; outcome = check p.wire.uuid_text repo_id update refs }
    ∷ check_all p repo_id refs updates

-- `rejected`
unfoldable pub any_rejected : List RefResult → Bool
any_rejected [] = false
any_rejected (r ∷ rs) = is_err r.outcome || any_rejected rs

-- The current-value record of one update.
abbrev pub ref_record : Platform → Text → Option Oid → PendingRecord
ref_record p key (some oid) = state_record Topics.git_refs key (p.encode_ref (record { oid = oid }))
ref_record p key none = tombstone Topics.git_refs key

-- The loop that builds the records, from the `i`-th update on.
unfoldable pub ref_records :
    Platform → Ambient → ℕ → ℕ → ℕ → List RefUpdate → Result (List PendingRecord) WriteError
ref_records p a i repo_id pusher [] = ok []
ref_records p a i repo_id pusher (update ∷ updates) =
    with_event
      (pending p a i
        (git_ref (ref_updated repo_id update.name update.expected_old update.new pusher false))
        (some pusher))
      (with_event (ok (ref_record p (ref_key p.wire.uuid_text repo_id update.name) update.new))
        (ref_records p a (suc i) repo_id pusher updates))

-- The loop that moves the references.
unfoldable pub set_all : Platform → ℕ → List RefUpdate → RefMap → RefMap
set_all p repo_id [] refs = refs
set_all p repo_id (update ∷ updates) refs =
    set_all p repo_id updates (set_ref p.wire.uuid_text repo_id update.name update.new refs)

unfoldable pub update_refs :
    Platform
    → Ambient
    → Service
    → ℕ
    → List RefUpdate
    → ℕ
    → Run (Service × Result (List RefResult) CommandError)
update_refs p a s repo_id updates pusher =
    if is_empty updates
    then returned (s, ok [])
    else let results = check_all p repo_id s.refs updates in
      if any_rejected results
      then returned (s, ok results)
      else commit a s (ref_records p a 0 repo_id pusher updates) s.catalog
          (set_all p repo_id updates s.refs) (λ c. results)
