-- ===== src/Projector/Issues.antt =====
-- crates/forge-projector/src/apply.rs: issue events.
use crabforge.Prelude.{ℕ, none, some, length}
use crabforge.Str.{Text, codes}
use crabforge.Types.Int.{pos}
use crabforge.Events.{IssueEvent, commented, title_changed}
use crabforge.Store.Issues.{
  IssueRecord, IssueTables, upsert_issue, issue_by_id, insert_comment, comments_of, page_size,
  refresh_counters,
}

unfoldable pub update_issue : Text → ℕ → (IssueRecord → IssueRecord) → IssueTables → IssueTables
unfolding issue_by_id upsert_issue
update_issue issue_id at mutate t = elim (issue_by_id issue_id t) [
  | none ↦ t
  | some issue ↦ upsert_issue (record (mutate issue) { updated_at = at }) t
]

-- The end of the arm for a comment: the count is derived from the comments that are stored.
unfoldable pub recount : Text → ℕ → IssueTables → IssueTables
unfolding issue_by_id upsert_issue comments_of page_size
recount issue_id at t = elim (issue_by_id issue_id t) [
  | none ↦ t
  | some issue ↦
      upsert_issue
        (record issue {
          comment_count = pos (length (comments_of issue_id (page_size (pos 100)) t));
          updated_at = at;
        })
        t
]

unfoldable pub apply_issue_event : (ℕ → Text) → IssueEvent → ℕ → IssueTables → IssueTables
unfolding update_issue recount upsert_issue insert_comment refresh_counters
apply_issue_event uuid_text
      (IssueEvent.opened issue_id repo_id number title body author_id author_name) at t =
    refresh_counters (uuid_text repo_id) (
      upsert_issue
        (record {
          issue_id = uuid_text issue_id;
          repo_id = uuid_text repo_id;
          number = number;
          title = title;
          body = body;
          author_id = uuid_text author_id;
          author_name = author_name;
          state = codes "open";
          comment_count = pos 0;
          created_at = at;
          updated_at = at;
          closed_at = none;
        })
        t)
apply_issue_event uuid_text (commented comment_id issue_id repo_id author_id author_name body) at
      t =
    recount (uuid_text issue_id) at (
      insert_comment
        (record {
          comment_id = uuid_text comment_id;
          issue_id = uuid_text issue_id;
          repo_id = uuid_text repo_id;
          author_id = uuid_text author_id;
          author_name = author_name;
          body = body;
          created_at = at;
          updated_at = at;
        })
        t)
apply_issue_event uuid_text (title_changed issue_id repo_id title) at t =
    update_issue (uuid_text issue_id) at (λ issue. record issue { title = title }) t
apply_issue_event uuid_text (IssueEvent.closed issue_id repo_id actor) at t =
    refresh_counters (uuid_text repo_id) (
      update_issue (uuid_text issue_id) at
        (λ issue. record issue { state = codes "closed"; closed_at = some at }) t)
apply_issue_event uuid_text (IssueEvent.reopened issue_id repo_id actor) at t =
    refresh_counters (uuid_text repo_id) (
      update_issue (uuid_text issue_id) at
        (λ issue. record issue { state = codes "open"; closed_at = none }) t)
