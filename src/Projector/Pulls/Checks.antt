-- ===== src/Projector/Pulls/Checks.antt =====
-- When a merge check counts.
use crabforge.Prelude.{
  ◌≡◌, ◌∙◌, refl, sym, ℕ, Bool, true, false, ◌&&◌, inl, inr, List, Bool-cases, arith, if◌then◌else◌,
  some,
}
use crabforge.Str.{Text, text_eq}
use crabforge.Str.Laws.{text_eq_iff, text_eq_refl}
use crabforge.Types.Oid.{Oid, to_hex}
use crabforge.Events.{mergeability_computed}
use crabforge.HashMap.Laws.{get-insert_self}
use crabforge.Store.Table.{by_key}
use crabforge.Store.Table.Updates.{update_where_at}
use crabforge.Store.Pulls.{
  PullRecord, PullTables, MergeCheck, Mergeable, unknown, clean, conflict, is_clean, clean_check,
  conflict_check, mergeable_as_str, parse_mergeable, is_open_pull, mergeability, can_merge,
  pull_by_id, record_check,
}
use crabforge.Projector.Pulls.{apply_pr_event}

parse_mergeable-as_str : (m : Mergeable) → parse_mergeable (mergeable_as_str m) ≡ m
unfolding parse_mergeable mergeable_as_str text_eq
parse_mergeable-as_str unknown = refl
parse_mergeable-as_str clean = refl
parse_mergeable-as_str conflict = refl

-- The check that the arm makes.
abbrev computed : Text → Text → Bool → List Text → MergeCheck
computed head base mergeable conflicts =
    if mergeable then clean_check head base else conflict_check head base conflicts

computed_verdict :
    (head base : Text) (mergeable : Bool) (conflicts : List Text)
    → is_clean (parse_mergeable (computed head base mergeable conflicts).verdict) ≡ mergeable
unfolding clean_check conflict_check
computed_verdict head base true conflicts = rw (parse_mergeable-as_str clean) refl
computed_verdict head base false conflicts = rw (parse_mergeable-as_str conflict) refl

computed_head :
    (head base : Text) (mergeable : Bool) (conflicts : List Text)
    → ((computed head base mergeable conflicts).head ≡ head)
      × ((computed head base mergeable conflicts).base ≡ base)
unfolding clean_check conflict_check
computed_head head base true conflicts = (refl, refl)
computed_head head base false conflicts = (refl, refl)

-- A check of a row's own commits, as the row reads it.
can_merge_checked :
    (row : PullRecord) (check : MergeCheck) (at : ℕ)
    → text_eq row.head_oid check.head && text_eq row.base_oid check.base ≡ true
    → can_merge (record row { merge_check = some check; updated_at = at })
      ≡ (is_open_pull row && is_clean (parse_mergeable check.verdict))
unfolding can_merge mergeability is_open_pull
can_merge_checked row check at h =
    let (heads, bases) =
      both (text_eq row.head_oid check.head) (text_eq row.base_oid check.base) h in
    let same_head = sym ((text_eq_iff row.head_oid check.head).0 heads) in
    let same_base = sym ((text_eq_iff row.base_oid check.base).0 bases) in
    let described : text_eq check.head row.head_oid && text_eq check.base row.base_oid ≡ true =
      rw (same_head, same_base) (rw (text_eq_refl row.head_oid, text_eq_refl row.base_oid) refl) in
    rw (described, parse_mergeable, text_eq) refl
  where
    both : (a b : Bool) → a && b ≡ true → (a ≡ true) × (b ≡ true)
    both a b h = ground arith

recorded :
    (k : Text) (check : MergeCheck) (at : ℕ) (row : PullRecord) (t : PullTables)
    → pull_by_id k t ≡ some row
    → (row' : PullRecord) × (pull_by_id k (record_check k check at t).0 ≡ some row')
      × (can_merge row' ≡ (
          if text_eq row.head_oid check.head && text_eq row.base_oid check.base
          then is_open_pull row && is_clean (parse_mergeable check.verdict)
          else can_merge row))
unfolding pull_by_id by_key record_check
recorded k check at row t e =
    let test : PullRecord → Bool =
      λ pr. text_eq pr.head_oid check.head && text_eq pr.base_oid check.base in
    let change : PullRecord → PullRecord =
      λ pr. record pr { merge_check = some check; updated_at = at } in
    let made = update_where_at k test change row t.rows e in
    elim (Bool-cases (text_eq row.head_oid check.head && text_eq row.base_oid check.base)) [
      | inl h ↦ (
        change row,
        rw made (rw h (get-insert_self k (change row) t.rows)),
        can_merge_checked row check at h ∙ rw h refl,
      )
      | inr h ↦ (row, rw made (rw h e), rw h refl)
    ]

-- After a merge check of the commits `head` and `base` is applied to a pull request that is there, the
-- pull request can be merged if it is open and the check found it mergeable, provided that these are
-- still its commits. A check of other commits changes nothing of whether it can be merged.
pub mergeability_computed_lem :
    (uuid_text : ℕ → Text) (pr_id repo_id : ℕ) (head base : Oid) (mergeable : Bool)
    (conflicts : List Text) (at : ℕ) (row : PullRecord) (t : PullTables)
    → pull_by_id (uuid_text pr_id) t ≡ some row
    → (row' : PullRecord) × (pull_by_id (uuid_text pr_id) (
          apply_pr_event uuid_text
            (mergeability_computed pr_id repo_id head base mergeable conflicts)
            at
            t)
        ≡ some row')
      × (can_merge row' ≡ (
          if text_eq row.head_oid (to_hex head) && text_eq row.base_oid (to_hex base)
          then is_open_pull row && mergeable
          else can_merge row))
unfolding apply_pr_event
mergeability_computed_lem uuid_text pr_id repo_id head base mergeable conflicts at row t e =
    let check = computed (to_hex head) (to_hex base) mergeable conflicts in
    let (row', found, result) = recorded (uuid_text pr_id) check at row t e in
    let (same_head, same_base) = computed_head (to_hex head) (to_hex base) mergeable conflicts in
    let verdict = computed_verdict (to_hex head) (to_hex base) mergeable conflicts in
    (row', found, rw (same_head, same_base, verdict) at result)
