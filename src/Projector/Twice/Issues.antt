-- ===== src/Projector/Twice/Issues.antt =====
-- Issue events that arrive twice.
use crabforge.Prelude.{◌≡◌, ◌∙◌, refl, ap, ℕ, inl, inr, Option-cases, none, some, length}
use crabforge.Str.{Text, codes}
use crabforge.Types.Int.{pos}
use crabforge.Events.{IssueEvent, commented, title_changed}
use crabforge.HashMap
use crabforge.Store.Table.{Table, by_key, upsert}
use crabforge.Store.Table.Laws.{rewrite, rewrite-rewrite, upsert-upsert, insert_absent_twice}
use crabforge.Store.Issues.{
  IssueRecord, IssueTables, CommentRecord, Counters, merge_issue, upsert_issue, issue_by_id,
  insert_comment, comments_of, page_size, count_in_state, refresh_counters,
}
use crabforge.Projector.Issues.{update_issue, recount, apply_issue_event}

abbrev with_rows : Table IssueRecord → IssueTables → IssueTables
with_rows rows t = record t { rows = rows }

-- The counters after `refresh_counters`.
abbrev counted : Text → Table IssueRecord → Table Counters → Table Counters
counted repo_id rows counters =
    let now : Counters = record {
      open_issues = pos (count_in_state repo_id (codes "open") rows);
      closed_issues = pos (count_in_state repo_id (codes "closed") rows);
    } in
    upsert (λ old new. new) repo_id now counters

refresh_counters_rows :
    (repo_id : Text) (t : IssueTables)
    → refresh_counters repo_id t ≡ record t { counters = counted repo_id t.rows t.counters }
unfolding refresh_counters
refresh_counters_rows repo_id t = refl

-- A change of the rows that is stable, with the counters of what it left.
refresh_twice :
    (repo_id : Text) (u : Table IssueRecord → Table IssueRecord) (t : IssueTables)
    → u (u t.rows) ≡ u t.rows
    → (let once = refresh_counters repo_id (with_rows (u t.rows) t) in
        refresh_counters repo_id (with_rows (u once.rows) once) ≡ once)
unfolding refresh_counters
refresh_twice repo_id u t h = rw h (
    ap (λ counters. record t { rows = u t.rows; counters = counters })
      (upsert-upsert (λ old new. new) repo_id _ t.counters refl (λ old. refl)))

abbrev stamped : ℕ → (IssueRecord → IssueRecord) → IssueRecord → IssueRecord
stamped at mutate row = record (mutate row) { updated_at = at }

update_issue_rows :
    (k : Text) (at : ℕ) (mutate : IssueRecord → IssueRecord) (t : IssueTables)
    → update_issue k at mutate t
      ≡ with_rows (rewrite merge_issue (λ r. r.issue_id) k (stamped at mutate) t.rows) t
unfolding update_issue upsert_issue issue_by_id by_key rewrite
update_issue_rows k at mutate t = elim (Option-cases (HashMap.get k t.rows)) [
  | inl e ↦ rw (e, update_issue, rewrite) refl
  | inr (row, e) ↦ rw (e, update_issue, rewrite) refl
]

-- The change that `recount` makes, with a count of comments.
abbrev recounted : ℕ → ℕ → IssueRecord → IssueRecord
recounted count at row = record row { comment_count = pos count; updated_at = at }

recount_rows :
    (k : Text) (at : ℕ) (t : IssueTables)
    → recount k at t
      ≡ with_rows
          (rewrite merge_issue
            (λ r. r.issue_id)
            k
            (recounted (length (comments_of k (page_size (pos 100)) t)) at)
            t.rows)
          t
unfolding recount upsert_issue issue_by_id by_key rewrite
recount_rows k at t = elim (Option-cases (HashMap.get k t.rows)) [
  | inl e ↦ rw (e, recount, rewrite) refl
  | inr (row, e) ↦ rw (e, recount, rewrite) refl
]

insert_comment_again :
    (comment : CommentRecord) (rows : Table IssueRecord) (t : IssueTables)
    → insert_comment comment (with_rows rows (insert_comment comment t))
      ≡ with_rows rows (insert_comment comment t)
unfolding insert_comment
insert_comment_again comment rows t =
    ap (λ comments. record t { rows = rows; comments = comments })
      (insert_absent_twice comment.comment_id comment t.comments)

recount_twice :
    (k : Text) (at : ℕ) (t : IssueTables) → recount k at (recount k at t) ≡ recount k at t
unfolding comments_of
recount_twice k at t = rw (recount_rows k at t) (
    recount_rows k at _
    ∙ ap (λ rows. with_rows rows t)
        (rewrite-rewrite merge_issue (λ r. r.issue_id) k _ t.rows (λ row. refl) (λ row. refl)
          (λ row. refl) (λ old row. refl)))

comment_twice :
    (comment : CommentRecord) (k : Text) (at : ℕ) (t : IssueTables)
    → (let once = recount k at (insert_comment comment t) in
        recount k at (insert_comment comment once) ≡ once)
comment_twice comment k at t =
    let again : insert_comment comment (recount k at (insert_comment comment t))
        ≡ recount k at (insert_comment comment t) =
      rw (recount_rows k at (insert_comment comment t)) (insert_comment_again comment _ t) in
    rw again (recount_twice k at (insert_comment comment t))

-- What a change must satisfy: it leaves the key, and is stable on the row that it made.
abbrev IsStable : ℕ → (IssueRecord → IssueRecord) → Type 0
IsStable at mutate =
    (row : IssueRecord)
    → let made = merge_issue row (stamped at mutate row) in
      ((mutate made).issue_id ≡ (mutate row).issue_id)
      × (merge_issue made (stamped at mutate made) ≡ made)

rewrite_issue_twice :
    (k : Text) (at : ℕ) (mutate : IssueRecord → IssueRecord) (rows : Table IssueRecord)
    → IsStable at mutate
    → (let once = rewrite merge_issue (λ r. r.issue_id) k (stamped at mutate) rows in
        rewrite merge_issue (λ r. r.issue_id) k (stamped at mutate) once ≡ once)
rewrite_issue_twice k at mutate rows h =
    rewrite-rewrite merge_issue (λ r. r.issue_id) k (stamped at mutate) rows (λ row. (h row).0)
      (λ row. (h row).1) (λ row. refl) (λ old row. refl)

update_issue_twice :
    (k : Text) (at : ℕ) (mutate : IssueRecord → IssueRecord) (t : IssueTables)
    → IsStable at mutate
    → update_issue k at mutate (update_issue k at mutate t) ≡ update_issue k at mutate t
update_issue_twice k at mutate t h = rw (update_issue_rows k at mutate t) (
    update_issue_rows k at mutate _
    ∙ ap (λ rows. with_rows rows t) (rewrite_issue_twice k at mutate t.rows h))

-- The arms that refresh the counters.
move_issue_twice :
    (k repo_id : Text) (at : ℕ) (mutate : IssueRecord → IssueRecord) (t : IssueTables)
    → IsStable at mutate
    → (let once = refresh_counters repo_id (update_issue k at mutate t) in
        refresh_counters repo_id (update_issue k at mutate once) ≡ once)
move_issue_twice k repo_id at mutate t h = rw (update_issue_rows k at mutate t) (
    ap (refresh_counters repo_id) (update_issue_rows k at mutate _)
    ∙ refresh_twice repo_id (rewrite merge_issue (λ r. r.issue_id) k (stamped at mutate)) t
        (rewrite_issue_twice k at mutate t.rows h))

-- An issue event that is applied twice at one time leaves the tables that it left the first time,
-- the counters included.
pub apply_issue_event_twice :
    (uuid_text : ℕ → Text) (event : IssueEvent) (at : ℕ) (t : IssueTables)
    → apply_issue_event uuid_text event at (apply_issue_event uuid_text event at t)
      ≡ apply_issue_event uuid_text event at t
unfolding apply_issue_event upsert_issue
apply_issue_event_twice uuid_text
      (IssueEvent.opened issue_id repo_id number title body author_id author_name) at t =
    refresh_twice (uuid_text repo_id) (upsert merge_issue (uuid_text issue_id) _) t
      (upsert-upsert merge_issue (uuid_text issue_id) _ t.rows refl (λ old. refl))
apply_issue_event_twice uuid_text (commented _ issue_id _ _ _ _) at t =
    comment_twice _ (uuid_text issue_id) at t
apply_issue_event_twice uuid_text (title_changed issue_id _ title) at t =
    update_issue_twice (uuid_text issue_id) at (λ issue. record issue { title = title }) t
      (λ row. (refl, refl))
apply_issue_event_twice uuid_text (IssueEvent.closed issue_id repo_id _) at t =
    move_issue_twice (uuid_text issue_id) (uuid_text repo_id) at
      (λ issue. record issue { state = codes "closed"; closed_at = some at }) t
      (λ row. (refl, refl))
apply_issue_event_twice uuid_text (IssueEvent.reopened issue_id repo_id _) at t =
    move_issue_twice (uuid_text issue_id) (uuid_text repo_id) at
      (λ issue. record issue { state = codes "open"; closed_at = none }) t (λ row. (refl, refl))
