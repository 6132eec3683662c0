-- ===== src/Store/Issues.antt =====
-- crates/forge-store/src/issues.rs: the `issues`, `issue_comments` and `repo_counters` tables.
use crabforge.Prelude.{ℕ, Bool, ◌&&◌, List, Option, length, take, if◌then◌else◌, ltb}
use crabforge.Str.{Text, codes, text_eq}
use crabforge.Types.Int.{ℤ, pos, negsuc}
use crabforge.Store.Table.{Table, by_key, upsert, insert_absent, rows_where, order_by}

pub record IssueRecord : Type 0 where
  pub issue_id : Text
  pub repo_id : Text
  pub number : ℤ
  pub title : Text
  pub body : Option Text
  pub author_id : Text
  pub author_name : Text
  pub state : Text
  pub comment_count : ℤ
  pub created_at : ℕ
  pub updated_at : ℕ
  pub closed_at : Option ℕ

pub record CommentRecord : Type 0 where
  pub comment_id : Text
  pub issue_id : Text
  pub repo_id : Text
  pub author_id : Text
  pub author_name : Text
  pub body : Text
  pub created_at : ℕ
  pub updated_at : ℕ

pub record Counters : Type 0 where
  pub open_issues : ℤ
  pub closed_issues : ℤ

pub record IssueTables : Type 0 where
  pub rows : Table IssueRecord
  pub comments : Table CommentRecord
  pub counters : Table Counters

-- `IssueRecord::is_open`
unfoldable pub is_open_issue : IssueRecord → Bool
unfolding text_eq
is_open_issue issue = text_eq issue.state (codes "open")

-- The columns that `ON CONFLICT` sets.
abbrev pub merge_issue : IssueRecord → IssueRecord → IssueRecord
merge_issue old new = record old {
  title = new.title;
  body = new.body;
  state = new.state;
  comment_count = new.comment_count;
  updated_at = new.updated_at;
  closed_at = new.closed_at;
}

unfoldable pub upsert_issue : IssueRecord → IssueTables → IssueTables
unfolding upsert
upsert_issue issue t = record t { rows = upsert merge_issue issue.issue_id issue t.rows }

unfoldable pub issue_by_id : Text → IssueTables → Option IssueRecord
unfolding by_key
issue_by_id issue_id t = by_key issue_id t.rows

unfoldable pub insert_comment : CommentRecord → IssueTables → IssueTables
unfolding insert_absent
insert_comment comment t = record t {
  comments = insert_absent comment.comment_id comment t.comments;
}

abbrev pub max_page_size : ℕ
max_page_size = 100

-- `page_size`, of an `i64` that is clamped into 1..=MAX_PAGE_SIZE.
unfoldable pub page_size : ℤ → ℕ
page_size (pos n) = if ltb n 1 then 1 else if ltb max_page_size n then max_page_size else n
page_size (negsuc n) = 1

-- `IssueStore::comments`
unfoldable pub comments_of : Text → ℕ → IssueTables → List CommentRecord
unfolding rows_where order_by text_eq
comments_of issue_id limit t =
    take limit
      (order_by (λ c. c.comment_id) (rows_where (λ c. text_eq c.issue_id issue_id) t.comments))

-- The rows of one repository in one state.
unfoldable pub count_in_state : Text → Text → Table IssueRecord → ℕ
unfolding rows_where text_eq
count_in_state repo_id state t =
    length (rows_where (λ i. text_eq i.repo_id repo_id && text_eq i.state state) t)

unfoldable pub refresh_counters : Text → IssueTables → IssueTables
unfolding count_in_state upsert
refresh_counters repo_id t =
    let counters : Counters = record {
      open_issues = pos (count_in_state repo_id (codes "open") t.rows);
      closed_issues = pos (count_in_state repo_id (codes "closed") t.rows);
    } in
    record t { counters = upsert (λ old new. new) repo_id counters t.counters }
