-- ===== src/Projector/Drain/Live.antt =====
-- A drain ends, with the whole log projected.
use crabforge.Prelude.{
  ℕ, zero, suc, ◌+◌, ◌≤◌, ◌<◌, ◌≡◌, refl, ◌⊎◌, inl, inr, Bool, true, false, List, [], ◌∷◌, Option,
  some, arith, ◌==◌, if◌then◌else◌, Bool-cases, Result, ok, is_empty,
}
use crabforge.Str.{Text}
use crabforge.Store.{Store}
use crabforge.Bus.Tailer.{FetchedRecord, Batch, cursor_after}
use crabforge.Bus.Tailer.Log.{Log, between, between_empty, Serves, IsLive}
use crabforge.Bus.Tailer.Replay.{
  batch_of, seek, cursor_after_le, next_batch_ok, and_both, and_right,
}
use crabforge.Projector.Apply.{Decoders, apply_decoded}
use crabforge.Projector.Drain.{
  Projector, ProjectorError, Session, World, Pass, goes_on, caught_up, pass_of, pass, drain,
  committed, publish_applied, apply_records, apply_batch, commit_cursor,
}
use crabforge.Projector.Drain.Durable.{project_all, project_all-between, IsExact}
use crabforge.Projector.Drain.Passes.{pass_caught_up, pass_hidden, pass_records}
use crabforge.Projector.Drain.Exact.{pass-IsKept}

-- A database that answers every statement.
abbrev pub IsHealthy : Session → Type 0
IsHealthy session =
    (session.begins ≡ true)
    × ((r : FetchedRecord) → session.applies r ≡ true)
    × (session.moves ≡ true)
    × (session.commit ≡ committed)

module _ (d : Decoders) (topic : Text) where
  apply_records_total :
      (applies : FetchedRecord → Bool) (rs : List FetchedRecord) (n : ℕ) (s : Store)
      → ((r : FetchedRecord) → applies r ≡ true)
      → (made : Store × ℕ) × (apply_records d topic applies rs n s ≡ some made)
  unfolding apply_records
  apply_records_total applies [] n s h = ((s, n), refl)
  apply_records_total applies (r ∷ rs) n s h =
      let made =
        apply_records_total applies rs (if (apply_decoded d topic r s).1 then n + 1 else n)
          (apply_decoded d topic r s).0 h in
      (made.0, rw (h r) made.1)

  -- A transaction on such a database.
  apply_batch_healthy :
      (session : Session) (batch : Batch) (p : Projector)
      → IsHealthy session
      → (n : ℕ) × ((pass_of (λ n. n) (apply_batch d topic session batch p)).1 ≡ goes_on n)
        × ((pass_of (λ n. n) (apply_batch d topic session batch p)).0.tailer ≡ p.tailer)
  unfolding apply_batch publish_applied
  apply_batch_healthy session batch p (b, applies, m, c) =
      let (made, e) = apply_records_total session.applies batch.records 0 p.db.rows applies in
      (made.1, rw (b, apply_batch, e, m, c) refl, rw (b, apply_batch, e, m, c) refl)

  commit_cursor_healthy :
      (session : Session) (next : ℕ) (p : Projector)
      → IsHealthy session
      → ((pass_of (λ done. 0) (commit_cursor d topic session next p)).1 ≡ goes_on 0)
        × ((pass_of (λ done. 0) (commit_cursor d topic session next p)).0.tailer ≡ p.tailer)
  unfolding commit_cursor publish_applied
  commit_cursor_healthy session next p (b, applies, m, c) =
      (rw (m, commit_cursor, c) refl, rw (m, commit_cursor, c) refl)

  -- A pass has caught up, or goes on from a later offset.
  abbrev IsProgress : ℕ → ℕ → Projector × Pass → Type 0
  IsProgress end offset (p, outcome) =
      ((outcome ≡ caught_up) × (p.tailer.offset ≡ end))
      ⊎ ((n : ℕ) × (outcome ≡ goes_on n) × (offset < p.tailer.offset) × (p.tailer.offset ≤ end))

  pass-IsProgress :
      (log : Log) (w : World) (end call : ℕ) (p : Projector)
      → Serves log w.fetch
      → IsLive end w.fetch
      → IsHealthy (w.session call)
      → p.tailer.offset ≤ end
      → IsProgress end p.tailer.offset (pass d topic w call p)
  pass-IsProgress log w end call p serves live healthy h =
      let (result, e, bound, progress) = live call p.tailer.offset h in
      let next = cursor_after result.next_offset p.tailer.offset in
      let later = cursor_after_le result.next_offset p.tailer.offset in
      let offset = p.tailer.offset in
      let batch = batch_of offset next log in
      let t = seek next p.tailer in
      let got = next_batch_ok log w.fetch call p.tailer result serves e in
      elim progress [
        | inl at_end ↦
            let there : next ≡ end = omega arith in
            let here : next ≡ offset = omega arith in
            let nothing : is_empty (between offset next log) ≡ true =
              rw here (rw (between_empty offset log) refl) in
            let caught : batch.caught_up ≡ true =
              and_both (is_empty (between offset next log)) (next == offset) nothing
                (ground arith) in
            rw (pass_caught_up d topic w call p t batch got nothing caught) (inl (refl, there))
        | inr moved ↦ elim (Bool-cases (is_empty (between offset next log))) [
          | inl hidden ↦
              let not_caught : batch.caught_up ≡ false =
                and_right (is_empty (between offset next log)) (next == offset) (ground arith) in
              let (goes, there) =
                commit_cursor_healthy (w.session call) next (record p { tailer = t }) healthy in
              rw (pass_hidden d topic w call p t batch got hidden not_caught)
                (inr (0, goes, rw there moved, rw there bound))
          | inr seen ↦
              let (n, goes, there) =
                apply_batch_healthy (w.session call) batch (record p { tailer = t }) healthy in
              rw (pass_records d topic w call p t batch got seen)
                (inr (n, goes, rw there moved, rw there bound))
        ]
      ]

  drain_stop :
      (w : World) (fuel call total : ℕ) (p : Projector)
      → (pass d topic w call p).1 ≡ caught_up
      → drain d topic w (suc fuel) call total p ≡ ((pass d topic w call p).0, some (ok total))
  unfolding drain
  drain_stop w fuel call total p h = rw (h, drain) refl

  drain_step :
      (w : World) (fuel call total n : ℕ) (p : Projector)
      → (pass d topic w call p).1 ≡ goes_on n
      → drain d topic w (suc fuel) call total p
        ≡ drain d topic w fuel (suc call) (total + n) (pass d topic w call p).0
  unfolding drain
  drain_step w fuel call total n p h = rw (h, drain) refl

  rows_at :
      (log : Log) (s : Store) (end : ℕ) (p : Projector)
      → IsExact d topic log s p
      → p.tailer.offset ≡ end
      → p.db.rows ≡ project_all d topic s (between 0 end log)
  rows_at log s end p exact here =
      let nothing : between p.tailer.offset end log ≡ [] = rw here (between_empty end log) in
      let whole = project_all-between d topic log s p end exact (omega arith) in rw nothing at whole

  -- What a drain that has caught up with `end` returns.
  abbrev pub IsCaughtUp : Log → Store → ℕ → Projector × Option (Result ℕ ProjectorError) → Type 0
  IsCaughtUp log s end (p, result) =
      ((n : ℕ) × (result ≡ some (ok n)))
      × IsExact d topic log s p
      × (p.db.rows ≡ project_all d topic s (between 0 end log))

  -- On a broker that serves `log` and is live up to `end`, and a database that answers every statement,
  -- a drain of an exact projector returns if it has more fuel than there are offsets left, and leaves
  -- an exact projector whose rows are those of every visible record below `end`, each applied once.
  pub drain_catches_up :
      (log : Log) (s : Store) (w : World) (end fuel call total : ℕ) (p : Projector)
      → Serves log w.fetch
      → IsLive end w.fetch
      → ((call : ℕ) → IsHealthy (w.session call))
      → IsExact d topic log s p
      → p.tailer.offset ≤ end
      → end < p.tailer.offset + fuel
      → IsCaughtUp log s end (drain d topic w fuel call total p)
  drain_catches_up log s w end zero call total p serves live healthy exact h k =
      absurd (omega arith)
  drain_catches_up log s w end (suc fuel) call total p serves live healthy exact h k =
      let kept = pass-IsKept d topic log s w call p serves exact in
      elim (pass-IsProgress log w end call p serves live (healthy call) h) [
        | inl (done, there) ↦
            let exact' = kept.1 (rw done refl) in
            rw (drain_stop w fuel call total p done)
              ((total, refl), exact', rows_at log s end (pass d topic w call p).0 exact' there)
        | inr (n, goes, moved, bound) ↦ rw (drain_step w fuel call total n p goes) (
            drain_catches_up log s w end fuel (suc call) (total + n) (pass d topic w call p).0
              serves live healthy (kept.1 (rw goes refl)) bound (omega arith))
      ]
