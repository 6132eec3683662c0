-- ===== src/Projector/Drain/Passes.antt =====
-- How a pass and a long poll end, by what the fetch yielded.
use crabforge.Prelude.{◌≡◌, refl, ℕ, true, false, ok, err, is_empty}
use crabforge.Str.{Text}
use crabforge.Bus.Tailer.{Batch, Tailer, TailError, next_batch}
use crabforge.Projector.Apply.{Decoders}
use crabforge.Projector.Drain.{
  Projector, World, caught_up, fails, tail, pass_of, pass, poll, apply_batch, commit_cursor,
}

module _ (d : Decoders) (topic : Text) (w : World) (call : ℕ) (p : Projector) where
  pub pass_err :
      (e : TailError)
      → next_batch (w.fetch call) p.tailer ≡ err e
      → pass d topic w call p ≡ (p, fails (tail e))
  unfolding pass
  pass_err e h = rw (h, pass) refl

  pub poll_err :
      (e : TailError)
      → next_batch (w.fetch call) p.tailer ≡ err e
      → poll d topic w call p ≡ (p, fails (tail e))
  unfolding poll
  poll_err e h = rw (h, poll) refl

  module _ (t : Tailer) (batch : Batch)
      (e : next_batch (w.fetch call) p.tailer ≡ ok (t, batch)) where
    pub pass_caught_up :
        is_empty batch.records ≡ true
        → batch.caught_up ≡ true
        → pass d topic w call p ≡ (record p { tailer = t }, caught_up)
    unfolding pass
    pass_caught_up h k = rw (e, pass) (rw (h, k) refl)

    pub pass_hidden :
        is_empty batch.records ≡ true
        → batch.caught_up ≡ false
        → pass d topic w call p
          ≡ pass_of
              (λ done. 0)
              (commit_cursor d topic (w.session call) batch.next_offset (record p { tailer = t }))
    unfolding pass
    pass_hidden h k = rw (e, pass) (rw (h, k) refl)

    pub pass_records :
        is_empty batch.records ≡ false
        → pass d topic w call p
          ≡ pass_of (λ n. n) (apply_batch d topic (w.session call) batch (record p { tailer = t }))
    unfolding pass
    pass_records h = rw (e, pass) (rw h refl)

    pub poll_empty :
        is_empty batch.records ≡ true → poll d topic w call p ≡ (record p { tailer = t }, caught_up)
    unfolding poll
    poll_empty h = rw (e, poll) (rw h refl)

    pub poll_records :
        is_empty batch.records ≡ false
        → poll d topic w call p
          ≡ pass_of (λ n. n) (apply_batch d topic (w.session call) batch (record p { tailer = t }))
    unfolding poll
    poll_records h = rw (e, poll) (rw h refl)
