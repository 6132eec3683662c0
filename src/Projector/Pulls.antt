-- ===== src/Projector/Pulls.antt =====
-- crates/forge-projector/src/apply.rs: pull request events.
pub mod Merged
pub mod Checks
use crabforge.Prelude.{ℕ, Bool, true, false, not, Option, none, some, if◌then◌else◌}
use crabforge.Str.{Text, codes, text_eq}
use crabforge.Types.Oid.{to_hex}
use crabforge.Types.Int.{pos}
use crabforge.Events.{
  PrEvent, synchronized, mergeability_computed, reviewed, merged, verdict_as_str,
}
use crabforge.Store.Pulls.{
  PullRecord, PullTables, MergeCheck, clean_check, conflict_check, upsert_pull, pull_by_id,
  record_check, insert_review,
}

unfoldable pub update_pull : Text → ℕ → (PullRecord → PullRecord) → PullTables → PullTables
unfolding pull_by_id upsert_pull
update_pull pr_id at mutate t = elim (pull_by_id pr_id t) [
  | none ↦ t
  | some pr ↦ upsert_pull (record (mutate pr) { updated_at = at }) t
]

-- The closures that the arms pass to `update_pull`.
abbrev pub set_merged : Text → Text → ℕ → PullRecord → PullRecord
set_merged merge_commit merged_by_name at pr = record pr {
  state = codes "merged";
  merge_commit_oid = some merge_commit;
  merged_by_name = some merged_by_name;
  merged_at = some at;
  closed_at = some at;
}

abbrev pub set_closed : ℕ → PullRecord → PullRecord
set_closed at pr =
    if not (text_eq pr.state (codes "merged"))
    then record pr { state = codes "closed"; closed_at = some at }
    else pr

abbrev pub set_reopened : PullRecord → PullRecord
set_reopened pr =
    if not (text_eq pr.state (codes "merged"))
    then record pr { state = codes "open"; closed_at = none; merge_check = none }
    else pr

unfoldable pub apply_pr_event : (ℕ → Text) → PrEvent → ℕ → PullTables → PullTables
unfolding update_pull upsert_pull record_check insert_review clean_check conflict_check to_hex
    verdict_as_str text_eq
apply_pr_event uuid_text
      (PrEvent.opened pr_id repo_id number title body author_id author_name source_branch
        target_branch head_oid base_oid)
      at t =
    upsert_pull
      (record {
        pr_id = uuid_text pr_id;
        repo_id = uuid_text repo_id;
        number = number;
        title = title;
        body = body;
        author_id = uuid_text author_id;
        author_name = author_name;
        state = codes "open";
        source_branch = source_branch;
        target_branch = target_branch;
        head_oid = to_hex head_oid;
        base_oid = to_hex base_oid;
        merge_check = none;
        merge_commit_oid = none;
        merged_by_name = none;
        comment_count = pos 0;
        created_at = at;
        updated_at = at;
        merged_at = none;
        closed_at = none;
      })
      t
apply_pr_event uuid_text (synchronized pr_id repo_id head_oid base_oid) at t =
    update_pull (uuid_text pr_id) at
      (λ pr. record pr { head_oid = to_hex head_oid; base_oid = to_hex base_oid }) t
apply_pr_event uuid_text (mergeability_computed pr_id repo_id head_oid base_oid mergeable conflicts)
      at t =
    let head = to_hex head_oid in
    let base = to_hex base_oid in
    let check = if mergeable then clean_check head base else conflict_check head base conflicts in
    (record_check (uuid_text pr_id) check at t).0
apply_pr_event uuid_text (reviewed review_id pr_id repo_id reviewer_id reviewer_name verdict body)
      at t =
    insert_review
      (record {
        review_id = uuid_text review_id;
        pr_id = uuid_text pr_id;
        repo_id = uuid_text repo_id;
        reviewer_id = uuid_text reviewer_id;
        reviewer_name = reviewer_name;
        verdict = verdict_as_str verdict;
        body = body;
        created_at = at;
      })
      t
apply_pr_event uuid_text (merged pr_id repo_id merge_commit_oid merged_by merged_by_name) at t =
    update_pull (uuid_text pr_id) at (set_merged (to_hex merge_commit_oid) merged_by_name at) t
apply_pr_event uuid_text (PrEvent.closed pr_id repo_id actor) at t =
    update_pull (uuid_text pr_id) at (set_closed at) t
apply_pr_event uuid_text (PrEvent.reopened pr_id repo_id actor) at t =
    update_pull (uuid_text pr_id) at set_reopened t
