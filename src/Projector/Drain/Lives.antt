-- ===== src/Projector/Drain/Lives.antt =====
-- The projectors that a process may hold, through failures and restarts.
use crabforge.Prelude.{◌≡◌, refl, ℕ, true}
use crabforge.Str.{Text}
use crabforge.Bus.Tailer.Log.{Log, between_empty, Serves}
use crabforge.Projector.Apply.{Decoders}
use crabforge.Projector.Drain.{
  Db, Projector, World, is_alive, pass, poll, applied_offset, open_projector,
}
use crabforge.Projector.Drain.Durable.{IsDurable, IsExact, open_projector-IsExact}
use crabforge.Projector.Drain.Exact.{pass-IsKept, poll-IsKept}

module _ (d : Decoders) (topic : Text) (w : World) where
  -- A projector is opened on a database. It goes on after a pass of `drain` or a long poll that did not
  -- fail. It may end between two passes or in one, whatever became of it, and is opened again on what is
  -- committed.
  pub data Reached (start : Db) : Projector → Type 0 where
    opened : Reached start (open_projector topic start)
    passed :
        {p : Projector} (call : ℕ)
        → Reached start p
        → is_alive (pass d topic w call p).1 ≡ true
        → Reached start (pass d topic w call p).0
    polled :
        {p : Projector} (call : ℕ)
        → Reached start p
        → is_alive (poll d topic w call p).1 ≡ true
        → Reached start (poll d topic w call p).0
    ended : {p : Projector} → Reached start p → Reached start (open_projector topic p.db)
    ended_in_pass :
        {p : Projector} (call : ℕ)
        → Reached start p
        → Reached start (open_projector topic (pass d topic w call p).0.db)
    ended_in_poll :
        {p : Projector} (call : ℕ)
        → Reached start p
        → Reached start (open_projector topic (poll d topic w call p).0.db)

  Reached-kept :
      (log : Log) (start : Db) {p : Projector}
      → Serves log w.fetch
      → IsDurable d topic log start.rows start
      → Reached start p
      → IsExact d topic log start.rows p
  Reached-kept log start serves fresh opened =
      open_projector-IsExact d topic log start.rows start fresh
  Reached-kept log start serves fresh (passed {p} call before alive) =
      (pass-IsKept d topic log start.rows w call p serves
          (Reached-kept log start serves fresh before)).1
        alive
  Reached-kept log start serves fresh (polled {p} call before alive) =
      (poll-IsKept d topic log start.rows w call p serves
          (Reached-kept log start serves fresh before)).1
        alive
  Reached-kept log start serves fresh (ended {p} before) =
      open_projector-IsExact d topic log start.rows p.db
        (Reached-kept log start serves fresh before).0
  Reached-kept log start serves fresh (ended_in_pass {p} call before) =
      open_projector-IsExact d topic log start.rows (pass d topic w call p).0.db
        (pass-IsKept d topic log start.rows w call p serves
          (Reached-kept log start serves fresh before)).0
  Reached-kept log start serves fresh (ended_in_poll {p} call before) =
      open_projector-IsExact d topic log start.rows (poll d topic w call p).0.db
        (poll-IsKept d topic log start.rows w call p serves
          (Reached-kept log start serves fresh before)).0

  -- On a broker that serves one log, started on a database that has no cursor of its topic, a projector
  -- that is reached through any passes, long polls, failed transactions, commits without an answer and
  -- restarts is exact: the committed rows are those of applying each visible record below the cursor once,
  -- in the order of the log, nothing visible stands between the cursor and the tailer, and every offset
  -- that was published is below the cursor.
  pub Reached-IsExact :
      (log : Log) (start : Db) {p : Projector}
      → Serves log w.fetch
      → applied_offset topic start ≡ 0
      → Reached start p
      → IsExact d topic log start.rows p
  Reached-IsExact log start serves fresh reached =
      Reached-kept log start serves (rw fresh (rw (between_empty 0 log) refl)) reached
