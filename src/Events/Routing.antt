-- ===== src/Events/Routing.antt =====
-- The topic, the type name and the record key of each event.
use crabforge.Prelude.{ℕ}
use crabforge.Str.{Text, codes}
use crabforge.Types.Topics
use crabforge.Events.{
  UserEvent, registered, profile_updated, deactivated, RepoEvent, created, renamed,
  description_changed, visibility_changed, default_branch_changed, collaborator_added,
  collaborator_removed, deleted, IssueEvent, commented, title_changed, PrEvent, synchronized,
  mergeability_computed, reviewed, merged, GitRefEvent, ref_updated, DomainEvent, user, repo, issue,
  pr, git_ref,
}

-- `DomainEvent::topic`
unfoldable pub topic : DomainEvent → Text
topic (user e) = Topics.events_users
topic (repo e) = Topics.events_repos
topic (issue e) = Topics.events_issues
topic (pr e) = Topics.events_prs
topic (git_ref e) = Topics.events_git_refs

unfoldable pub user_event_type : UserEvent → Text
user_event_type (registered _ _ _ _ _) = codes "user.registered"
user_event_type (profile_updated _ _ _) = codes "user.profile_updated"
user_event_type (deactivated _) = codes "user.deactivated"

unfoldable pub repo_event_type : RepoEvent → Text
repo_event_type (created _ _ _ _ _ _ _ _) = codes "repo.created"
repo_event_type (renamed _ _ _) = codes "repo.renamed"
repo_event_type (description_changed _ _) = codes "repo.description_changed"
repo_event_type (visibility_changed _ _) = codes "repo.visibility_changed"
repo_event_type (default_branch_changed _ _) = codes "repo.default_branch_changed"
repo_event_type (collaborator_added _ _ _ _) = codes "repo.collaborator_added"
repo_event_type (collaborator_removed _ _) = codes "repo.collaborator_removed"
repo_event_type (deleted _) = codes "repo.deleted"

unfoldable pub issue_event_type : IssueEvent → Text
issue_event_type (IssueEvent.opened _ _ _ _ _ _ _) = codes "issue.opened"
issue_event_type (commented _ _ _ _ _ _) = codes "issue.commented"
issue_event_type (title_changed _ _ _) = codes "issue.title_changed"
issue_event_type (IssueEvent.closed _ _ _) = codes "issue.closed"
issue_event_type (IssueEvent.reopened _ _ _) = codes "issue.reopened"

unfoldable pub pr_event_type : PrEvent → Text
pr_event_type (PrEvent.opened _ _ _ _ _ _ _ _ _ _ _) = codes "pr.opened"
pr_event_type (synchronized _ _ _ _) = codes "pr.synchronized"
pr_event_type (mergeability_computed _ _ _ _ _ _) = codes "pr.mergeability_computed"
pr_event_type (reviewed _ _ _ _ _ _ _) = codes "pr.reviewed"
pr_event_type (merged _ _ _ _ _) = codes "pr.merged"
pr_event_type (PrEvent.closed _ _ _) = codes "pr.closed"
pr_event_type (PrEvent.reopened _ _ _) = codes "pr.reopened"

-- `DomainEvent::event_type`
unfoldable pub event_type : DomainEvent → Text
unfolding user_event_type repo_event_type issue_event_type pr_event_type
event_type (user e) = user_event_type e
event_type (repo e) = repo_event_type e
event_type (issue e) = issue_event_type e
event_type (pr e) = pr_event_type e
event_type (git_ref e) = codes "git.ref_updated"

abbrev pub user_aggregate : UserEvent → ℕ
user_aggregate (registered user_id _ _ _ _) = user_id
user_aggregate (profile_updated user_id _ _) = user_id
user_aggregate (deactivated user_id) = user_id

abbrev pub repo_aggregate : RepoEvent → ℕ
repo_aggregate (created repo_id _ _ _ _ _ _ _) = repo_id
repo_aggregate (renamed repo_id _ _) = repo_id
repo_aggregate (description_changed repo_id _) = repo_id
repo_aggregate (visibility_changed repo_id _) = repo_id
repo_aggregate (default_branch_changed repo_id _) = repo_id
repo_aggregate (collaborator_added repo_id _ _ _) = repo_id
repo_aggregate (collaborator_removed repo_id _) = repo_id
repo_aggregate (deleted repo_id) = repo_id

abbrev pub issue_aggregate : IssueEvent → ℕ
issue_aggregate (IssueEvent.opened _ repo_id _ _ _ _ _) = repo_id
issue_aggregate (commented _ _ repo_id _ _ _) = repo_id
issue_aggregate (title_changed _ repo_id _) = repo_id
issue_aggregate (IssueEvent.closed _ repo_id _) = repo_id
issue_aggregate (IssueEvent.reopened _ repo_id _) = repo_id

abbrev pub pr_aggregate : PrEvent → ℕ
pr_aggregate (PrEvent.opened _ repo_id _ _ _ _ _ _ _ _ _) = repo_id
pr_aggregate (synchronized _ repo_id _ _) = repo_id
pr_aggregate (mergeability_computed _ repo_id _ _ _ _) = repo_id
pr_aggregate (reviewed _ _ repo_id _ _ _ _) = repo_id
pr_aggregate (merged _ repo_id _ _ _) = repo_id
pr_aggregate (PrEvent.closed _ repo_id _) = repo_id
pr_aggregate (PrEvent.reopened _ repo_id _) = repo_id

abbrev pub git_ref_aggregate : GitRefEvent → ℕ
git_ref_aggregate (ref_updated repo_id _ _ _ _ _) = repo_id

-- The identifier whose text is `DomainEvent::aggregate_id`.
abbrev pub aggregate : DomainEvent → ℕ
aggregate (user e) = user_aggregate e
aggregate (repo e) = repo_aggregate e
aggregate (issue e) = issue_aggregate e
aggregate (pr e) = pr_aggregate e
aggregate (git_ref e) = git_ref_aggregate e
