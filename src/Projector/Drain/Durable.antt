-- ===== src/Projector/Drain/Durable.antt =====
-- What is committed, after a batch and after a restart.
use mathlib.Core.List.{foldl, foldl-append}
use crabforge.Prelude.{
  ℕ, zero, suc, ◌≤◌, ◌≡◌, refl, sym, ap, ◌∙◌, inl, inr, Bool, true, List, [], ◌∷◌, ◌++◌, some,
  arith, Bool-cases,
}
use crabforge.Str.{Text}
use crabforge.HashMap.Laws.{get-insert_self}
use crabforge.Types.Int.{ℤ, pos, negsuc, minus_one, gt_i64}
use crabforge.Store.{Store}
use crabforge.Bus.Tailer.{FetchedRecord, advance, open_at}
use crabforge.Bus.Tailer.Log.{Log, between, between_empty, between-append}
use crabforge.Projector.Apply.{Decoders, apply_decoded}
use crabforge.Projector.Drain.{
  Db, Projector, applied_offset, set_applied_offset, apply_records, open_projector,
}

module _ (d : Decoders) (topic : Text) where
  -- The rows after records, each applied once.
  abbrev pub project_all : Store → List FetchedRecord → Store
  project_all s rs = foldl (λ s r. (apply_decoded d topic r s).0) s rs

  pub apply_records-project_all :
      (applies : FetchedRecord → Bool) (rs : List FetchedRecord) (n : ℕ) (s : Store) {r : Store × ℕ}
      → apply_records d topic applies rs n s ≡ some r
      → r.0 ≡ project_all s rs
  unfolding apply_records
  apply_records-project_all applies [] n s h = ground arith
  apply_records-project_all applies (r ∷ rs) n s h = elim (Bool-cases (applies r)) [
    | inl e ↦ apply_records-project_all applies rs _ (apply_decoded d topic r s).0 (rw e at h)
    | inr e ↦ let stopped = rw e at h in absurd cc
  ]

  -- The rows are those of the log up to the cursor, from `s` on.
  abbrev pub IsDurable : Log → Store → Db → Type 0
  IsDurable log s db = db.rows ≡ project_all s (between 0 (applied_offset topic db) log)

  -- The same of a projector; it has passed over nothing that is visible, and has published no offset
  -- that the cursor has not passed.
  abbrev pub IsExact : Log → Store → Projector → Type 0
  IsExact log s p =
      IsDurable log s p.db
      × (applied_offset topic p.db ≤ p.tailer.offset)
      × (between (applied_offset topic p.db) p.tailer.offset log ≡ [])
      × (gt_i64 (pos (applied_offset topic p.db)) p.applied ≡ true)

  pub gt-minus_one : (n : ℕ) → gt_i64 (pos n) (minus_one n) ≡ true
  unfolding gt_i64 minus_one
  gt-minus_one zero = refl
  gt-minus_one (suc n) = ground arith

  pub open_projector-IsExact :
      (log : Log) (s : Store) (db : Db)
      → IsDurable log s db
      → IsExact log s (open_projector topic db)
  unfolding open_projector open_at
  open_projector-IsExact log s db h =
      (h, omega arith, between_empty (applied_offset topic db) log, gt-minus_one _)

  pub applied_offset-set :
      (offset : ℕ) (db : Db) → applied_offset topic (set_applied_offset topic offset db) ≡ offset
  unfolding applied_offset set_applied_offset
  applied_offset-set offset db = rw (get-insert_self topic offset db.cursors, applied_offset) refl

  pub gt-advance :
      (cursor next : ℕ) (current : ℤ)
      → gt_i64 (pos cursor) current ≡ true
      → cursor ≤ next
      → gt_i64 (pos next) (advance (minus_one next) current) ≡ true
  unfolding gt_i64 advance minus_one
  gt-advance cursor zero (pos n) h k = ground arith
  gt-advance cursor zero (negsuc n) h k = ground arith
  gt-advance cursor (suc next) (pos n) h k = ground arith
  gt-advance cursor (suc next) (negsuc n) h k = ground arith

  -- The rows after one more stretch of the log.
  pub project_all-between :
      (log : Log) (s : Store) (p : Projector) (next : ℕ)
      → IsExact log s p
      → p.tailer.offset ≤ next
      → project_all p.db.rows (between p.tailer.offset next log)
        ≡ project_all s (between 0 next log)
  project_all-between log s p next (rows, behind, unseen, _) h =
      let cursor = applied_offset topic p.db in
      let apply : Store → FetchedRecord → Store = λ s r. (apply_decoded d topic r s).0 in
      let offset = p.tailer.offset in
      let skipped : between cursor next log ≡ between offset next log =
        sym (between-append cursor offset next log behind h)
        ∙ ap (λ rs. rs ++ between offset next log) unseen in
      let whole : between 0 cursor log ++ between offset next log ≡ between 0 next log =
        ap (λ rs. between 0 cursor log ++ rs) (sym skipped)
        ∙ between-append 0 cursor next log (omega arith) (omega arith) in
      rw rows (
        sym (foldl-append apply s (between 0 cursor log) (between offset next log))
        ∙ ap (project_all s) whole)

  -- A batch that is committed.
  pub moved-IsDurable :
      (log : Log) (s : Store) (p : Projector) (next : ℕ) (rows : Store)
      → IsExact log s p
      → p.tailer.offset ≤ next
      → rows ≡ project_all p.db.rows (between p.tailer.offset next log)
      → IsDurable log s (set_applied_offset topic next (record p.db { rows = rows }))
  unfolding set_applied_offset
  moved-IsDurable log s p next rows exact h e =
      rw (applied_offset-set next (record p.db { rows = rows }))
        (e ∙ project_all-between log s p next exact h)
