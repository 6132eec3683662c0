-- ===== src/Bus/Tailer.antt =====
-- crates/forge-bus/src/tailer.rs: reading one partition from an offset. The broker is not part of
-- the repository: what it answers to the fetches is the argument `Fetch`. Offsets are not negative,
-- and below 2 ^ 63.
pub mod Log
pub mod Replay
use Prim.Native.Nat.{max}
use mathlib.Core.List.{foldl}
use crabforge.Prelude.{
  ℕ, zero, suc, ◌+◌, Bool, true, false, ◌&&◌, List, [], ◌∷◌, Option, none, some, if◌then◌else◌,
  is_empty, length, ◌==◌, Result, ok, err,
}
use crabforge.Types.Int.{ℤ, pos, negsuc, minus_one, gt_i64}
use crabforge.Bus.Writer.{Bytes}

pub data TailError : Type 0 where
  client : ℕ → TailError

-- Of `crabka_client_core::FetchedRecord`, what the readers use.
pub record FetchedRecord : Type 0 where
  pub offset : ℕ
  pub value : Option Bytes

-- Of `crabka_client_core::FetchPartitionResult`, what `next_batch` uses.
pub record FetchPartitionResult : Type 0 where
  pub records : List FetchedRecord
  pub next_offset : Option ℕ

-- The answers of the broker, by the number of the call and the offset that it asks for.
abbrev pub Fetch : Type 0
Fetch = ℕ → ℕ → Result FetchPartitionResult TailError

pub record Batch : Type 0 where
  pub records : List FetchedRecord
  pub next_offset : ℕ
  pub caught_up : Bool

pub record Tailer : Type 0 where
  pub offset : ℕ
  pub applied : ℤ

-- The tailer that `open_partition_at` returns.
unfoldable pub open_at : ℕ → Tailer
unfolding minus_one
open_at offset = record { offset = offset; applied = minus_one offset }

-- The closure of `send_if_modified`.
unfoldable pub advance : ℤ → ℤ → ℤ
unfolding gt_i64
advance offset current = if gt_i64 offset current then offset else current

unfoldable pub mark_applied : ℤ → Tailer → Tailer
unfolding advance
mark_applied offset t = record t { applied = advance offset t.applied }

-- Where a fetch leaves the cursor.
abbrev pub cursor_after : Option ℕ → ℕ → ℕ
cursor_after none offset = offset
cursor_after (some next) offset = max next offset

unfoldable pub next_batch :
    (ℕ → Result FetchPartitionResult TailError) → Tailer → Result (Tailer × Batch) TailError
next_batch fetch t = elim (fetch t.offset) [
  | err e ↦ err e
  | ok result ↦
      let previous = t.offset in
      let offset = cursor_after result.next_offset t.offset in
      let batch : Batch = record {
        records = result.records;
        next_offset = offset;
        caught_up = is_empty result.records && (offset == previous);
      } in
      ok (record t { offset = offset }, batch)
]

-- What the loop of `replay_to_end` leaves; `count` is none if the fuel ran out.
pub record Replayed (S : Type 0) : Type 0 where
  pub tailer : Tailer
  pub state : S
  pub count : Option (Result ℕ TailError)

-- The loop of `replay_to_end`, from its call number `call` on; the closure `apply` changes a state.
unfoldable pub replay_to_end :
    {S : Type 0} → Fetch → (S → FetchedRecord → S) → ℕ → ℕ → ℕ → Tailer → S → Replayed S
unfolding next_batch mark_applied minus_one
replay_to_end fetch apply zero call count t s = record { tailer = t; state = s; count = none }
replay_to_end fetch apply (suc fuel) call count t s = elim (next_batch (fetch call) t) [
  | err e ↦ record { tailer = t; state = s; count = some (err e) }
  | ok (t', batch) ↦ elim (is_empty batch.records) [
    | true ↦ elim batch.caught_up [
      | true ↦ record { tailer = t'; state = s; count = some (ok count) }
      | false ↦ replay_to_end fetch apply fuel (suc call) count t' s
    ]
    | false ↦
        replay_to_end fetch apply fuel (suc call) (count + length batch.records)
          (mark_applied (minus_one batch.next_offset) t') (foldl apply s batch.records)
  ]
]
