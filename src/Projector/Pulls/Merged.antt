-- ===== src/Projector/Pulls/Merged.antt =====
-- A pull request that was merged.
use crabforge.Prelude.{◌≡◌, refl, ℕ, Bool, true, false}
use crabforge.Str.{Text, text_eq}
use crabforge.Types.Oid.{to_hex}
use crabforge.Events.{PrEvent, synchronized, mergeability_computed, reviewed, merged}
use crabforge.Store.Table.Keyed.{
  IsKeyed, IsRow, upsert-IsKeyed, rewrite-IsKeyed, rewrite-IsRow, update_where-IsKeyed,
  update_where-IsRow,
}
use crabforge.Store.Pulls.{
  PullRecord, PullTables, is_merged, merge_pull_row, upsert_pull, record_check, insert_review,
}
use crabforge.Projector.Pulls.{update_pull, set_merged, set_closed, set_reopened, apply_pr_event}
use crabforge.Projector.Twice.Pulls.{stamped, update_pull_rows, set_closed_key, set_reopened_key}

-- Every pull request stands under its own identifier.
abbrev pub ArePlaced : PullTables → Type 0
ArePlaced t = IsKeyed (λ pr. pr.pr_id) t.rows

abbrev pub IsMerged : PullRecord → Type 0
IsMerged pr = is_merged pr ≡ true

update_pull-ArePlaced :
    (k : Text) (at : ℕ) (mutate : PullRecord → PullRecord) (t : PullTables)
    → ((row : PullRecord) → (mutate row).pr_id ≡ row.pr_id)
    → ArePlaced t
    → ArePlaced (update_pull k at mutate t)
update_pull-ArePlaced k at mutate t key placed = rw (update_pull_rows k at mutate t) (
    rewrite-IsKeyed merge_pull_row (λ pr. pr.pr_id) (stamped at mutate) key k t.rows (λ row. refl)
      placed)

update_pull-IsMerged :
    (j k : Text) (at : ℕ) (mutate : PullRecord → PullRecord) (t : PullTables)
    → ((row : PullRecord) → (mutate row).pr_id ≡ row.pr_id)
    → ((row : PullRecord) → IsMerged row → IsMerged (mutate row))
    → ArePlaced t
    → IsRow IsMerged j t.rows
    → IsRow IsMerged j (update_pull k at mutate t).rows
unfolding is_merged
update_pull-IsMerged j k at mutate t key keeps placed row = rw (update_pull_rows k at mutate t) (
    rewrite-IsRow merge_pull_row (λ pr. pr.pr_id) (stamped at mutate) key IsMerged j k t.rows keeps
      placed row)

set_closed-IsMerged : (at : ℕ) (row : PullRecord) → IsMerged row → IsMerged (set_closed at row)
unfolding is_merged
set_closed-IsMerged at row h = rw h h

set_reopened-IsMerged : (row : PullRecord) → IsMerged row → IsMerged (set_reopened row)
unfolding is_merged
set_reopened-IsMerged row h = rw h h

abbrev pub is_opening : PrEvent → Bool
is_opening (PrEvent.opened _ _ _ _ _ _ _ _ _ _ _) = true
is_opening _ = false

-- Every pull request event keeps each pull request under its own identifier.
pub apply_pr_event-ArePlaced :
    (uuid_text : ℕ → Text) (event : PrEvent) (at : ℕ) (t : PullTables)
    → ArePlaced t
    → ArePlaced (apply_pr_event uuid_text event at t)
unfolding apply_pr_event upsert_pull record_check insert_review
apply_pr_event-ArePlaced uuid_text (PrEvent.opened _ _ _ _ _ _ _ _ _ _ _) at t placed =
    upsert-IsKeyed merge_pull_row (λ pr. pr.pr_id) _ t.rows (λ old same. same) placed
apply_pr_event-ArePlaced uuid_text (synchronized pr_id _ head_oid base_oid) at t placed =
    update_pull-ArePlaced (uuid_text pr_id) at
      (λ pr. record pr { head_oid = to_hex head_oid; base_oid = to_hex base_oid }) t (λ row. refl)
      placed
apply_pr_event-ArePlaced uuid_text (mergeability_computed pr_id _ _ _ _ _) at t placed =
    update_where-IsKeyed (λ pr. pr.pr_id) (uuid_text pr_id) _ _ t.rows (λ row. refl) placed
apply_pr_event-ArePlaced uuid_text (reviewed _ _ _ _ _ _ _) at t placed = placed
apply_pr_event-ArePlaced uuid_text (merged pr_id _ merge_commit_oid _ merged_by_name) at t placed =
    update_pull-ArePlaced (uuid_text pr_id) at
      (set_merged (to_hex merge_commit_oid) merged_by_name at) t (λ row. refl) placed
apply_pr_event-ArePlaced uuid_text (PrEvent.closed pr_id _ _) at t placed =
    update_pull-ArePlaced (uuid_text pr_id) at (set_closed at) t (set_closed_key at) placed
apply_pr_event-ArePlaced uuid_text (PrEvent.reopened pr_id _ _) at t placed =
    update_pull-ArePlaced (uuid_text pr_id) at set_reopened t set_reopened_key placed

-- In tables where every pull request stands under its own identifier, a pull request that was merged
-- is there and merged after every event but one that opens a pull request.
pub apply_pr_event-IsMerged :
    (uuid_text : ℕ → Text) (event : PrEvent) (at : ℕ) (j : Text) (t : PullTables)
    → is_opening event ≡ false
    → ArePlaced t
    → IsRow IsMerged j t.rows
    → IsRow IsMerged j (apply_pr_event uuid_text event at t).rows
unfolding apply_pr_event record_check insert_review is_merged text_eq
apply_pr_event-IsMerged uuid_text (PrEvent.opened _ _ _ _ _ _ _ _ _ _ _) at j t h placed row =
    absurd cc
apply_pr_event-IsMerged uuid_text (synchronized pr_id _ head_oid base_oid) at j t h placed row =
    update_pull-IsMerged j (uuid_text pr_id) at
      (λ pr. record pr { head_oid = to_hex head_oid; base_oid = to_hex base_oid }) t (λ row. refl)
      (λ row m. m) placed row
apply_pr_event-IsMerged uuid_text (mergeability_computed pr_id _ _ _ _ _) at j t h placed row =
    update_where-IsRow IsMerged j (uuid_text pr_id) _ _ t.rows (λ row m. m) row
apply_pr_event-IsMerged uuid_text (reviewed _ _ _ _ _ _ _) at j t h placed row = row
apply_pr_event-IsMerged uuid_text (merged pr_id _ merge_commit_oid _ merged_by_name) at j t h placed
      row =
    update_pull-IsMerged j (uuid_text pr_id) at
      (set_merged (to_hex merge_commit_oid) merged_by_name at) t (λ row. refl) (λ row m. refl)
      placed row
apply_pr_event-IsMerged uuid_text (PrEvent.closed pr_id _ _) at j t h placed row =
    update_pull-IsMerged j (uuid_text pr_id) at (set_closed at) t (set_closed_key at)
      (set_closed-IsMerged at) placed row
apply_pr_event-IsMerged uuid_text (PrEvent.reopened pr_id _ _) at j t h placed row =
    update_pull-IsMerged j (uuid_text pr_id) at set_reopened t set_reopened_key
      set_reopened-IsMerged placed row
