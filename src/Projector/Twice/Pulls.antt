-- ===== src/Projector/Twice/Pulls.antt =====
-- Pull request events that arrive twice.
use crabforge.Prelude.{◌∙◌, ◌≡◌, refl, ap, ℕ, inl, inr, Bool-cases, Option-cases}
use crabforge.Str.{Text, codes, text_eq}
use crabforge.Events.{PrEvent, synchronized, mergeability_computed, reviewed, merged}
use crabforge.HashMap
use crabforge.Store.Table.{by_key}
use crabforge.Store.Table.Laws.{rewrite, rewrite-rewrite, upsert-upsert, insert_absent_twice}
use crabforge.Store.Table.Updates.{update_where_twice}
use crabforge.Store.Pulls.{
  PullRecord, PullTables, MergeCheck, merge_pull_row, upsert_pull, pull_by_id, record_check,
  insert_review,
}
use crabforge.Types.Oid.{to_hex}
use crabforge.Projector.Pulls.{update_pull, set_merged, set_closed, set_reopened, apply_pr_event}

-- A change of a row, before it is upserted.
abbrev pub stamped : ℕ → (PullRecord → PullRecord) → PullRecord → PullRecord
stamped at mutate row = record (mutate row) { updated_at = at }

pub update_pull_rows :
    (k : Text) (at : ℕ) (mutate : PullRecord → PullRecord) (t : PullTables)
    → update_pull k at mutate t
      ≡ record t { rows = rewrite merge_pull_row (λ r. r.pr_id) k (stamped at mutate) t.rows }
unfolding update_pull upsert_pull pull_by_id by_key rewrite
update_pull_rows k at mutate t = elim (Option-cases (HashMap.get k t.rows)) [
  | inl e ↦ rw (e, update_pull, rewrite) refl
  | inr (row, e) ↦ rw (e, update_pull, rewrite) refl
]

update_pull_twice :
    (k : Text) (at : ℕ) (mutate : PullRecord → PullRecord) (t : PullTables)
    → ((row : PullRecord)
        → (stamped at mutate (merge_pull_row row (stamped at mutate row))).pr_id
          ≡ (mutate row).pr_id)
    → ((row : PullRecord)
        → let made = merge_pull_row row (stamped at mutate row) in
          merge_pull_row made (stamped at mutate made) ≡ made)
    → update_pull k at mutate (update_pull k at mutate t) ≡ update_pull k at mutate t
update_pull_twice k at mutate t keeps stable =
    let again =
      rewrite-rewrite merge_pull_row (λ r. r.pr_id) k (stamped at mutate) t.rows keeps stable
        (λ row. refl) (λ old row. refl) in
    rw (update_pull_rows k at mutate t)
      (update_pull_rows k at mutate _ ∙ ap (λ rows. record t { rows = rows }) again)

record_check_twice :
    (k : Text) (check : MergeCheck) (at : ℕ) (t : PullTables)
    → (record_check k check at (record_check k check at t).0).0 ≡ (record_check k check at t).0
unfolding record_check
record_check_twice k check at t =
    ap (λ rows. record t { rows = rows }) (update_where_twice k _ _ t.rows (λ row. refl))

keeps_key :
    (at : ℕ) (mutate : PullRecord → PullRecord)
    → ((row : PullRecord) → (mutate row).pr_id ≡ row.pr_id)
    → (row : PullRecord)
    → (stamped at mutate (merge_pull_row row (stamped at mutate row))).pr_id ≡ (mutate row).pr_id
keeps_key at mutate key row = rw (key row) (key _)

pub set_closed_key : (at : ℕ) (row : PullRecord) → (set_closed at row).pr_id ≡ row.pr_id
set_closed_key at row = elim (Bool-cases (text_eq row.state (codes "merged"))) [
  | inl h ↦ rw h refl
  | inr h ↦ rw h refl
]

set_closed_stable :
    (at : ℕ) (row : PullRecord)
    → let made = merge_pull_row row (stamped at (set_closed at) row) in
      merge_pull_row made (stamped at (set_closed at) made) ≡ made
unfolding text_eq
set_closed_stable at row = elim (Bool-cases (text_eq row.state (codes "merged"))) [
  | inl h ↦ rw (h, text_eq) (rw (h, text_eq) refl)
  | inr h ↦ rw (h, text_eq) refl
]

pub set_reopened_key : (row : PullRecord) → (set_reopened row).pr_id ≡ row.pr_id
set_reopened_key row = elim (Bool-cases (text_eq row.state (codes "merged"))) [
  | inl h ↦ rw h refl
  | inr h ↦ rw h refl
]

set_reopened_stable :
    (at : ℕ) (row : PullRecord)
    → let made = merge_pull_row row (stamped at set_reopened row) in
      merge_pull_row made (stamped at set_reopened made) ≡ made
unfolding text_eq
set_reopened_stable at row = elim (Bool-cases (text_eq row.state (codes "merged"))) [
  | inl h ↦ rw (h, text_eq) (rw (h, text_eq) refl)
  | inr h ↦ rw (h, text_eq) refl
]

-- A pull request event that is applied twice at one time leaves the tables that it left the first
-- time.
pub apply_pr_event_twice :
    (uuid_text : ℕ → Text) (event : PrEvent) (at : ℕ) (t : PullTables)
    → apply_pr_event uuid_text event at (apply_pr_event uuid_text event at t)
      ≡ apply_pr_event uuid_text event at t
unfolding apply_pr_event upsert_pull insert_review
apply_pr_event_twice uuid_text (PrEvent.opened _ _ _ _ _ _ _ _ _ _ _) at t =
    ap (λ rows. record t { rows = rows })
      (upsert-upsert merge_pull_row _ _ t.rows refl (λ old. refl))
apply_pr_event_twice uuid_text (synchronized pr_id repo_id head_oid base_oid) at t =
    update_pull_twice (uuid_text pr_id) at
      (λ pr. record pr { head_oid = to_hex head_oid; base_oid = to_hex base_oid }) t (λ row. refl)
      (λ row. refl)
apply_pr_event_twice uuid_text (mergeability_computed pr_id _ _ _ _ _) at t =
    record_check_twice (uuid_text pr_id) _ at t
apply_pr_event_twice uuid_text (reviewed _ _ _ _ _ _ _) at t =
    ap (λ reviews. record t { reviews = reviews }) (insert_absent_twice _ _ t.reviews)
apply_pr_event_twice uuid_text (merged pr_id _ merge_commit_oid _ merged_by_name) at t =
    update_pull_twice (uuid_text pr_id) at (set_merged (to_hex merge_commit_oid) merged_by_name at)
      t (λ row. refl) (λ row. refl)
apply_pr_event_twice uuid_text (PrEvent.closed pr_id _ _) at t =
    update_pull_twice (uuid_text pr_id) at (set_closed at) t
      (keeps_key at (set_closed at) (set_closed_key at)) (set_closed_stable at)
apply_pr_event_twice uuid_text (PrEvent.reopened pr_id _ _) at t =
    update_pull_twice (uuid_text pr_id) at set_reopened t
      (keeps_key at set_reopened set_reopened_key) (set_reopened_stable at)
