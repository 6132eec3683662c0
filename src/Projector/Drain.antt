-- ===== src/Projector/Drain.antt =====
-- crates/forge-projector/src/lib.rs: the projector of one topic. The database is not part of the
-- repository: how it answers to a transaction is the argument `Session`. A transaction that is not
-- committed leaves the rows and the cursor as they were.
pub mod Durable
pub mod Exact
pub mod Passes
pub mod Lives
pub mod Live
use crabforge.Prelude.{
  ℕ, zero, suc, ◌+◌, Bool, true, false, List, [], ◌∷◌, Option, none, some, if◌then◌else◌, is_empty,
  Result, ok, err,
}
use crabforge.Str.{Text, text_eq}
use crabforge.HashMap
use crabforge.Types.Int.{ℤ, minus_one}
use crabforge.Bus.Tailer.{
  FetchedRecord, Fetch, TailError, Batch, Tailer, open_at, advance, next_batch,
}
use crabforge.Store.{Store}
use crabforge.Projector.Apply.{Decoders, apply_decoded}

pub data ProjectorError : Type 0 where
  tail : TailError → ProjectorError
  store : ProjectorError

-- What is committed: the rows, and the `reader_cursors` rows of the projector by their topics.
pub record Db : Type 0 where
  pub rows : Store
  pub cursors : List (Text × ℕ)

-- `CursorStore::applied_offset`
unfoldable pub applied_offset : Text → Db → ℕ
unfolding HashMap.get
applied_offset topic db = elim (HashMap.get topic db.cursors) [ none ↦ 0 | some offset ↦ offset ]

-- `CursorStore::set_applied_offset`
unfoldable pub set_applied_offset : Text → ℕ → Db → Db
unfolding HashMap.insert
set_applied_offset topic offset db = record db { cursors = HashMap.insert topic offset db.cursors }

-- The answer to `COMMIT`. The connection may be lost before or after the database has committed.
pub data CommitAnswer : Type 0 where
  committed lost unacknowledged : CommitAnswer

-- The answers to the statements of one transaction.
pub record Session : Type 0 where
  pub begins : Bool
  pub applies : FetchedRecord → Bool
  pub moves : Bool
  pub commit : CommitAnswer

-- What the projector runs against, by the number of the pass.
pub record World : Type 0 where
  pub fetch : Fetch
  pub session : ℕ → Session

pub record Projector : Type 0 where
  pub tailer : Tailer
  pub db : Db
  pub applied : ℤ

-- `Projector::open`
unfoldable pub open_projector : Text → Db → Projector
unfolding applied_offset open_at minus_one
open_projector topic db =
    let resume_from = applied_offset topic db in
    record { tailer = open_at resume_from; db = db; applied = minus_one resume_from }

-- `publish_applied`
unfoldable pub publish_applied : ℤ → Projector → Projector
unfolding advance
publish_applied offset p = record p { applied = advance offset p.applied }

-- How one pass of the loop of `drain` ends: it goes on, with what it added to the total, or returns,
-- having caught up or with an error.
pub data Pass : Type 0 where
  goes_on : ℕ → Pass
  caught_up : Pass
  fails : ProjectorError → Pass

abbrev pub pass_of : {A : Type 0} → (A → ℕ) → Projector × Result A ProjectorError → Projector × Pass
pass_of added (p, ok a) = (p, goes_on (added a))
pass_of added (p, err e) = (p, fails e)

abbrev pub Done : Type 0
Done = Unit

abbrev pub is_alive : Pass → Bool
is_alive (goes_on _) = true
is_alive caught_up = true
is_alive (fails _) = false

module _ (d : Decoders) (topic : Text) where
  -- The loop over the records of a batch; none if a statement fails.
  unfoldable pub apply_records :
      (FetchedRecord → Bool) → List FetchedRecord → ℕ → Store → Option (Store × ℕ)
  unfolding apply_decoded
  apply_records applies [] applied s = some (s, applied)
  apply_records applies (r ∷ rs) applied s =
      let (s', known) = apply_decoded d topic r s in
      let rest = apply_records applies rs (if known then applied + 1 else applied) s' in
      if applies r then rest else none

  -- After `COMMIT` was sent.
  abbrev pub end_batch : CommitAnswer → Db → ℕ → ℕ → Projector → Projector × Result ℕ ProjectorError
  end_batch committed db next applied p =
      (publish_applied (minus_one next) (record p { db = db }), ok applied)
  end_batch lost db next applied p = (p, err store)
  end_batch unacknowledged db next applied p = (record p { db = db }, err store)

  -- `apply_batch`, and the same statements in `drain`.
  unfoldable pub apply_batch : Session → Batch → Projector → Projector × Result ℕ ProjectorError
  unfolding apply_records set_applied_offset publish_applied minus_one
  apply_batch session batch p =
      if session.begins
      then elim (apply_records session.applies batch.records 0 p.db.rows) [
        | none ↦ (p, err store)
        | some (s, applied) ↦
            if session.moves
            then end_batch session.commit
                (set_applied_offset topic batch.next_offset (record p.db { rows = s }))
                batch.next_offset applied p
            else (p, err store)
      ]
      else (p, err store)

  -- After the statement that stores the cursor, which is a transaction of its own.
  abbrev pub end_cursor : CommitAnswer → ℕ → Projector → Projector × Result Done ProjectorError
  end_cursor committed offset p = (
    publish_applied (minus_one offset) (record p { db = set_applied_offset topic offset p.db }),
    ok tt,
  )
  end_cursor lost offset p = (p, err store)
  end_cursor unacknowledged offset p =
      (record p { db = set_applied_offset topic offset p.db }, err store)

  unfoldable pub commit_cursor : Session → ℕ → Projector → Projector × Result Done ProjectorError
  unfolding set_applied_offset publish_applied minus_one
  commit_cursor session offset p =
      if session.moves then end_cursor session.commit offset p else (p, err store)

  unfoldable pub pass : World → ℕ → Projector → Projector × Pass
  unfolding next_batch apply_batch commit_cursor
  pass w call p = elim (next_batch (w.fetch call) p.tailer) [
    | err e ↦ (p, fails (tail e))
    | ok (t, batch) ↦
        let moved : Projector = record p { tailer = t } in
        if is_empty batch.records
        then (if batch.caught_up
            then (moved, caught_up)
            else pass_of (λ done. 0) (commit_cursor (w.session call) batch.next_offset moved))
        else pass_of (λ applied. applied) (apply_batch (w.session call) batch moved)
  ]

  -- `drain`, from pass number `call` on; the result is none if the fuel ran out.
  unfoldable pub drain :
      World → ℕ → ℕ → ℕ → Projector → Projector × Option (Result ℕ ProjectorError)
  unfolding pass
  drain w zero call total p = (p, none)
  drain w (suc fuel) call total p = elim (pass w call p).1 [
    | goes_on added ↦ drain w fuel (suc call) (total + added) (pass w call p).0
    | caught_up ↦ ((pass w call p).0, some (ok total))
    | fails e ↦ ((pass w call p).0, some (err e))
  ]

  -- The long poll of `run`. A batch that holds no record is dropped.
  unfoldable pub poll : World → ℕ → Projector → Projector × Pass
  unfolding next_batch apply_batch
  poll w call p = elim (next_batch (w.fetch call) p.tailer) [
    | err e ↦ (p, fails (tail e))
    | ok (t, batch) ↦
        let moved : Projector = record p { tailer = t } in
        if is_empty batch.records
        then (moved, caught_up)
        else pass_of (λ applied. applied) (apply_batch (w.session call) batch moved)
  ]
