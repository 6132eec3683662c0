-- ===== src/Store/Pulls.antt =====
-- crates/forge-store/src/pulls.rs: the `pulls` and `pr_reviews` tables. A merge check goes through
-- a jsonb column and comes back as it was written.
use crabforge.Prelude.{ℕ, Bool, true, false, ◌&&◌, List, [], Option, none, some, if◌then◌else◌}
use crabforge.Str.{Text, codes, text_eq}
use crabforge.Types.Int.{ℤ}
use crabforge.Store.Table.{Table, by_key, upsert, insert_absent, update_where}

pub data Mergeable : Type 0 where
  unknown clean conflict : Mergeable

-- `Mergeable::as_str`
unfoldable pub mergeable_as_str : Mergeable → Text
mergeable_as_str unknown = codes "unknown"
mergeable_as_str clean = codes "clean"
mergeable_as_str conflict = codes "conflict"

-- `Mergeable::parse`
unfoldable pub parse_mergeable : Text → Mergeable
unfolding text_eq
parse_mergeable s =
    if text_eq s (codes "clean")
    then clean
    else if text_eq s (codes "conflict")
    then conflict
    else unknown

pub record MergeCheck : Type 0 where
  pub verdict : Text
  pub head : Text
  pub base : Text
  pub paths : List Text

-- `MergeCheck::clean`
unfoldable pub clean_check : Text → Text → MergeCheck
unfolding mergeable_as_str
clean_check head base = record {
  verdict = mergeable_as_str clean;
  head = head;
  base = base;
  paths = [];
}

-- `MergeCheck::conflict`
unfoldable pub conflict_check : Text → Text → List Text → MergeCheck
unfolding mergeable_as_str
conflict_check head base paths = record {
  verdict = mergeable_as_str conflict;
  head = head;
  base = base;
  paths = paths;
}

pub record PullRecord : Type 0 where
  pub pr_id : Text
  pub repo_id : Text
  pub number : ℤ
  pub title : Text
  pub body : Option Text
  pub author_id : Text
  pub author_name : Text
  pub state : Text
  pub source_branch : Text
  pub target_branch : Text
  pub head_oid : Text
  pub base_oid : Text
  pub merge_check : Option MergeCheck
  pub merge_commit_oid : Option Text
  pub merged_by_name : Option Text
  pub comment_count : ℤ
  pub created_at : ℕ
  pub updated_at : ℕ
  pub merged_at : Option ℕ
  pub closed_at : Option ℕ

pub record ReviewRecord : Type 0 where
  pub review_id : Text
  pub pr_id : Text
  pub repo_id : Text
  pub reviewer_id : Text
  pub reviewer_name : Text
  pub verdict : Text
  pub body : Option Text
  pub created_at : ℕ

pub record PullTables : Type 0 where
  pub rows : Table PullRecord
  pub reviews : Table ReviewRecord

-- `PullRecord::is_open`
unfoldable pub is_open_pull : PullRecord → Bool
unfolding text_eq
is_open_pull pr = text_eq pr.state (codes "open")

unfoldable pub is_merged : PullRecord → Bool
unfolding text_eq
is_merged pr = text_eq pr.state (codes "merged")

-- The guard of `mergeability` and `conflicts`.
abbrev pub describes : MergeCheck → PullRecord → Bool
describes check pr = text_eq check.head pr.head_oid && text_eq check.base pr.base_oid

unfoldable pub mergeability : PullRecord → Mergeable
unfolding text_eq parse_mergeable
mergeability pr = elim pr.merge_check [
  | none ↦ unknown
  | some check ↦ if describes check pr then parse_mergeable check.verdict else unknown
]

-- `PullRecord::conflicts`
unfoldable pub conflict_paths : PullRecord → List Text
unfolding text_eq
conflict_paths pr = elim pr.merge_check [
  | none ↦ []
  | some check ↦ if describes check pr then check.paths else []
]

-- `== Mergeable::Clean`
abbrev pub is_clean : Mergeable → Bool
is_clean clean = true
is_clean _ = false

unfoldable pub can_merge : PullRecord → Bool
unfolding is_open_pull mergeability
can_merge pr = is_open_pull pr && is_clean (mergeability pr)

-- The columns that `ON CONFLICT` sets.
abbrev pub merge_pull_row : PullRecord → PullRecord → PullRecord
merge_pull_row old new = record old {
  title = new.title;
  body = new.body;
  state = new.state;
  head_oid = new.head_oid;
  base_oid = new.base_oid;
  merge_check = new.merge_check;
  merge_commit_oid = new.merge_commit_oid;
  merged_by_name = new.merged_by_name;
  comment_count = new.comment_count;
  updated_at = new.updated_at;
  merged_at = new.merged_at;
  closed_at = new.closed_at;
}

unfoldable pub upsert_pull : PullRecord → PullTables → PullTables
unfolding upsert
upsert_pull pr t = record t { rows = upsert merge_pull_row pr.pr_id pr t.rows }

unfoldable pub pull_by_id : Text → PullTables → Option PullRecord
unfolding by_key
pull_by_id pr_id t = by_key pr_id t.rows

unfoldable pub record_check : Text → MergeCheck → ℕ → PullTables → PullTables × Bool
unfolding update_where text_eq
record_check pr_id check at t =
    let (rows, updated) =
      update_where pr_id (λ pr. text_eq pr.head_oid check.head && text_eq pr.base_oid check.base)
        (λ pr. record pr { merge_check = some check; updated_at = at }) t.rows in
    (record t { rows = rows }, updated)

unfoldable pub insert_review : ReviewRecord → PullTables → PullTables
unfolding insert_absent
insert_review review t = record t { reviews = insert_absent review.review_id review t.reviews }
