-- ===== src/Projector/Drain/Exact.antt =====
-- Each event has its effect once, whatever fails.
use crabforge.Prelude.{
  ℕ, ◌≤◌, ◌≡◌, refl, sym, ◌∙◌, inl, inr, true, [], arith, Bool-cases, Option-cases, Result-cases,
  is_empty,
}
use crabforge.Str.{Text}
use crabforge.Types.Int.{minus_one}
use crabforge.Store.{Store}
use crabforge.Bus.Tailer.{cursor_after}
use crabforge.Bus.Tailer.Log.{Log, between, between_empty, between-append, Serves}
use crabforge.Bus.Tailer.Replay.{
  batch_of, seek, cursor_after_le, next_batch_ok, next_batch_err, nil_of_empty,
}
use crabforge.Projector.Apply.{Decoders}
use crabforge.Projector.Drain.{
  Projector, Session, World, Pass, is_alive, pass_of, pass, poll, CommitAnswer, committed, lost,
  unacknowledged, applied_offset, set_applied_offset, publish_applied, apply_records, apply_batch,
  end_batch, end_cursor, commit_cursor,
}
use crabforge.Projector.Drain.Passes.{
  pass_err, pass_caught_up, pass_hidden, pass_records, poll_err, poll_empty, poll_records,
}
use crabforge.Projector.Drain.Durable.{
  project_all, IsDurable, IsExact, apply_records-project_all, applied_offset-set, gt-advance,
  moved-IsDurable,
}

module _ (d : Decoders) (topic : Text) (log : Log) (s : Store) where
  -- What a pass leaves: the rows agree with the cursor, and the projector is exact if it goes on.
  abbrev IsKept : Projector × Pass → Type 0
  IsKept r = IsDurable d topic log s r.0.db × (is_alive r.1 ≡ true → IsExact d topic log s r.0)

  -- The projector after its cursor has moved to where its tailer is.
  published-IsExact :
      (p : Projector) (next : ℕ) (rows : Store)
      → IsExact d topic log s p
      → p.tailer.offset ≤ next
      → rows ≡ project_all d topic p.db.rows (between p.tailer.offset next log)
      → IsExact d topic log s (
          publish_applied (minus_one next) (record p {
            tailer = seek next p.tailer;
            db = set_applied_offset topic next (record p.db { rows = rows });
          }))
  unfolding publish_applied
  published-IsExact p next rows exact h e =
      let there = applied_offset-set d topic next (record p.db { rows = rows }) in
      (
        moved-IsDurable d topic log s p next rows exact h e,
        rw there (omega arith),
        rw there (between_empty next log),
        rw there
            (gt-advance d topic (applied_offset topic p.db) next p.applied exact.3 (omega arith)),
      )

  end_batch-IsKept :
      (answer : CommitAnswer) (p : Projector) (next applied : ℕ) (rows : Store)
      → IsExact d topic log s p
      → p.tailer.offset ≤ next
      → rows ≡ project_all d topic p.db.rows (between p.tailer.offset next log)
      → IsKept (
          pass_of
            (λ n. n)
            (end_batch d topic answer
              (set_applied_offset topic next (record p.db { rows = rows }))
              next
              applied
              (record p { tailer = seek next p.tailer })))
  end_batch-IsKept committed p next applied rows exact h e =
      let out = published-IsExact p next rows exact h e in (out.0, λ alive. out)
  end_batch-IsKept lost p next applied rows exact h e = (exact.0, λ alive. absurd cc)
  end_batch-IsKept unacknowledged p next applied rows exact h e =
      (moved-IsDurable d topic log s p next rows exact h e, λ alive. absurd cc)

  apply_batch-IsKept :
      (session : Session) (p : Projector) (next : ℕ)
      → IsExact d topic log s p
      → p.tailer.offset ≤ next
      → IsKept (
          pass_of
            (λ n. n)
            (apply_batch d topic session
              (batch_of p.tailer.offset next log)
              (record p { tailer = seek next p.tailer })))
  unfolding apply_batch
  apply_batch-IsKept session p next exact h =
      let rs = between p.tailer.offset next log in
      elim (Bool-cases session.begins) [
        | inr b ↦ rw (b, apply_batch) (exact.0, λ alive. absurd cc)
        | inl b ↦ elim (Option-cases (apply_records d topic session.applies rs 0 p.db.rows)) [
          | inl none_made ↦ rw (b, apply_batch, none_made) (exact.0, λ alive. absurd cc)
          | inr (made, e) ↦ elim (Bool-cases session.moves) [
            | inr m ↦ rw (b, apply_batch, e, m) (exact.0, λ alive. absurd cc)
            | inl m ↦
                rw (b, apply_batch, e, m)
                  (end_batch-IsKept session.commit p next made.1 made.0 exact h
                    (apply_records-project_all d topic session.applies rs 0 p.db.rows e))
          ]
        ]
      ]

  -- The projector after a fetch that showed nothing.
  seen-IsExact :
      (p : Projector) (next : ℕ)
      → IsExact d topic log s p
      → p.tailer.offset ≤ next
      → between p.tailer.offset next log ≡ []
      → IsExact d topic log s (record p { tailer = seek next p.tailer })
  seen-IsExact p next (rows, behind, unseen, published) h nothing =
      let cursor = applied_offset topic p.db in
      let both : between cursor next log ≡ [] =
        sym (between-append cursor p.tailer.offset next log behind h) ∙ rw unseen nothing in
      (rows, omega arith, both, published)

  end_cursor-IsKept :
      (commit : CommitAnswer) (p : Projector) (next : ℕ)
      → IsExact d topic log s p
      → p.tailer.offset ≤ next
      → between p.tailer.offset next log ≡ []
      → IsKept (
          pass_of
            (λ done. 0)
            (end_cursor d topic commit next (record p { tailer = seek next p.tailer })))
  unfolding set_applied_offset publish_applied
  end_cursor-IsKept committed p next exact h nothing =
      let out = published-IsExact p next p.db.rows exact h (rw nothing refl) in
      (out.0, λ alive. out)
  end_cursor-IsKept lost p next exact h nothing = (exact.0, λ alive. absurd cc)
  end_cursor-IsKept unacknowledged p next exact h nothing =
      let out = published-IsExact p next p.db.rows exact h (rw nothing refl) in
      (out.0, λ alive. absurd cc)

  commit_cursor-IsKept :
      (session : Session) (p : Projector) (next : ℕ)
      → IsExact d topic log s p
      → p.tailer.offset ≤ next
      → between p.tailer.offset next log ≡ []
      → IsKept (
          pass_of
            (λ done. 0)
            (commit_cursor d topic session next (record p { tailer = seek next p.tailer })))
  unfolding commit_cursor
  commit_cursor-IsKept session p next exact h nothing = elim (Bool-cases session.moves) [
    | inl e ↦ rw (e, commit_cursor) (end_cursor-IsKept session.commit p next exact h nothing)
    | inr e ↦ rw (e, commit_cursor) (exact.0, λ alive. absurd cc)
  ]

  pub pass-IsKept :
      (w : World) (call : ℕ) (p : Projector)
      → Serves log w.fetch
      → IsExact d topic log s p
      → IsKept (pass d topic w call p)
  pass-IsKept w call p serves exact = elim (Result-cases (w.fetch call p.tailer.offset)) [
    | inr (e, h) ↦
        rw (pass_err d topic w call p e (next_batch_err w.fetch call p.tailer e h))
          (exact.0, λ alive. absurd cc)
    | inl (result, h) ↦
        let next = cursor_after result.next_offset p.tailer.offset in
        let later = cursor_after_le result.next_offset p.tailer.offset in
        let batch = batch_of p.tailer.offset next log in
        let got = next_batch_ok log w.fetch call p.tailer result serves h in
        let t = seek next p.tailer in
        elim (Bool-cases (is_empty (between p.tailer.offset next log))) [
          | inr seen ↦
              rw (pass_records d topic w call p t batch got seen)
                (apply_batch-IsKept (w.session call) p next exact later)
          | inl hidden ↦
              let nothing = nil_of_empty (between p.tailer.offset next log) hidden in
              elim (Bool-cases batch.caught_up) [
                | inl c ↦
                    let out = seen-IsExact p next exact later nothing in
                    rw (pass_caught_up d topic w call p t batch got hidden c) (out.0, λ alive. out)
                | inr c ↦
                    rw (pass_hidden d topic w call p t batch got hidden c)
                      (commit_cursor-IsKept (w.session call) p next exact later nothing)
              ]
        ]
  ]

  pub poll-IsKept :
      (w : World) (call : ℕ) (p : Projector)
      → Serves log w.fetch
      → IsExact d topic log s p
      → IsKept (poll d topic w call p)
  poll-IsKept w call p serves exact = elim (Result-cases (w.fetch call p.tailer.offset)) [
    | inr (e, h) ↦
        rw (poll_err d topic w call p e (next_batch_err w.fetch call p.tailer e h))
          (exact.0, λ alive. absurd cc)
    | inl (result, h) ↦
        let next = cursor_after result.next_offset p.tailer.offset in
        let later = cursor_after_le result.next_offset p.tailer.offset in
        let batch = batch_of p.tailer.offset next log in
        let got = next_batch_ok log w.fetch call p.tailer result serves h in
        let t = seek next p.tailer in
        elim (Bool-cases (is_empty (between p.tailer.offset next log))) [
          | inr seen ↦
              rw (poll_records d topic w call p t batch got seen)
                (apply_batch-IsKept (w.session call) p next exact later)
          | inl hidden ↦
              let out =
                seen-IsExact p next exact later
                  (nil_of_empty (between p.tailer.offset next log) hidden) in
              rw (poll_empty d topic w call p t batch got hidden) (out.0, λ alive. out)
        ]
  ]
