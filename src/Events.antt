-- ===== src/Events.antt =====
-- crates/forge-events/src/domain.rs and envelope.rs: the domain events of the command service, one
-- data type for each aggregate, and the envelope around them. Identifiers are UUIDs, given by
-- their numbers; a timestamp is given by its microseconds.
pub mod Routing
pub mod Headers
pub mod Ci
use crabforge.Prelude.{ℕ, Bool, List, Option, none, some}
use crabforge.Str.{Text, codes, text_eq}
use crabforge.Types.Oid.{Oid}
use crabforge.Types.Int.{ℤ}

pub data Visibility : Type 0 where
  public private : Visibility

pub data Role : Type 0 where
  read write admin : Role

pub data UserEvent : Type 0 where
  registered : (user_id : ℕ) (username username_lower email password_hash : Text) → UserEvent
  profile_updated : (user_id : ℕ) (display_name bio : Option Text) → UserEvent
  deactivated : (user_id : ℕ) → UserEvent

pub data RepoEvent : Type 0 where
  created :
      (repo_id owner_id : ℕ) (owner_name name full_name_lower : Text) (description : Option Text)
      (default_branch : Text) (visibility : Visibility)
      → RepoEvent
  renamed : (repo_id : ℕ) (name full_name_lower : Text) → RepoEvent
  description_changed : (repo_id : ℕ) (description : Option Text) → RepoEvent
  visibility_changed : (repo_id : ℕ) (visibility : Visibility) → RepoEvent
  default_branch_changed : (repo_id : ℕ) (default_branch : Text) → RepoEvent
  collaborator_added : (repo_id user_id : ℕ) (username : Text) (role : Role) → RepoEvent
  collaborator_removed : (repo_id user_id : ℕ) → RepoEvent
  deleted : (repo_id : ℕ) → RepoEvent

pub data IssueEvent : Type 0 where
  opened :
      (issue_id repo_id : ℕ) (number : ℤ) (title : Text) (body : Option Text) (author_id : ℕ)
      (author_name : Text)
      → IssueEvent
  commented : (comment_id issue_id repo_id author_id : ℕ) (author_name body : Text) → IssueEvent
  title_changed : (issue_id repo_id : ℕ) (title : Text) → IssueEvent
  closed : (issue_id repo_id actor : ℕ) → IssueEvent
  reopened : (issue_id repo_id actor : ℕ) → IssueEvent

pub data ReviewVerdict : Type 0 where
  approve request_changes comment : ReviewVerdict

pub data PrEvent : Type 0 where
  opened :
      (pr_id repo_id : ℕ) (number : ℤ) (title : Text) (body : Option Text) (author_id : ℕ)
      (author_name source_branch target_branch : Text) (head_oid base_oid : Oid)
      → PrEvent
  synchronized : (pr_id repo_id : ℕ) (head_oid base_oid : Oid) → PrEvent
  mergeability_computed :
      (pr_id repo_id : ℕ) (head_oid base_oid : Oid) (mergeable : Bool) (conflicts : List Text)
      → PrEvent
  reviewed :
      (review_id pr_id repo_id reviewer_id : ℕ) (reviewer_name : Text) (verdict : ReviewVerdict)
      (body : Option Text)
      → PrEvent
  merged :
      (pr_id repo_id : ℕ) (merge_commit_oid : Oid) (merged_by : ℕ) (merged_by_name : Text) → PrEvent
  closed : (pr_id repo_id actor : ℕ) → PrEvent
  reopened : (pr_id repo_id actor : ℕ) → PrEvent

pub data GitRefEvent : Type 0 where
  ref_updated :
      (repo_id : ℕ) (ref : Text) (old new : Option Oid) (pusher : ℕ) (forced : Bool) → GitRefEvent

-- The types that implement the trait `DomainEvent`.
pub data DomainEvent : Type 0 where
  user : UserEvent → DomainEvent
  repo : RepoEvent → DomainEvent
  issue : IssueEvent → DomainEvent
  pr : PrEvent → DomainEvent
  git_ref : GitRefEvent → DomainEvent

unfoldable pub verdict_as_str : ReviewVerdict → Text
verdict_as_str approve = codes "approve"
verdict_as_str request_changes = codes "request_changes"
verdict_as_str comment = codes "comment"

pub record Envelope : Type 0 where
  pub event_id : ℕ
  pub event_type : Text
  pub event_version : ℕ
  pub aggregate_id : Text
  pub actor : Option ℕ
  pub occurred_at : ℕ
  pub payload : DomainEvent
