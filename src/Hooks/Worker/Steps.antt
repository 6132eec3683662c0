-- ===== src/Hooks/Worker/Steps.antt =====
-- What a step of the worker may come to.
use crabforge.Prelude.{ℕ, List, [], ◌≡◌, ◌⊎◌, Result, ok, err, is_empty, ◌&&◌, ◌==◌}
use crabforge.Bus.Writer.{Run, returned, aborted}
use crabforge.Bus.Tailer.{FetchedRecord, FetchPartitionResult, Batch, Tailer, cursor_after}
use crabforge.Hooks.Worker.{
  WorkerError, Delivering, Worker, Statement, applied, not_applied, unanswered,
}

-- What a step may answer, once its fetch came back with `records` and the tailer is `t`, where `run` is
-- the delivery of these records. In all cases the tailer has moved on.
abbrev pub IsStep :
    Statement
    → Worker
    → Tailer
    → List FetchedRecord
    → Run (Delivering × Result ℕ WorkerError)
    → Run (Worker × Result ℕ WorkerError)
    → Type 0
IsStep moves w t records run (returned (w', ok n)) =
    (w'.tailer ≡ t)
    × (((records ≡ []) × (w'.cursor ≡ w.cursor) × (n ≡ 0))
        ⊎ ((moves ≡ applied) × (w'.cursor ≡ t.offset) × (run ≡ returned (w'.state, ok n))))
IsStep moves w t records run (returned (w', err e)) =
    (w'.tailer ≡ t)
    × (((w'.cursor ≡ w.cursor) × (run ≡ returned (w'.state, err e)))
        ⊎ (((moves ≡ not_applied) × (w'.cursor ≡ w.cursor))
            ⊎ ((moves ≡ unanswered) × (w'.cursor ≡ t.offset))))
IsStep moves w t records run (aborted log) = run ≡ aborted log

-- The batch that the fetch comes to.
abbrev batch_of : FetchPartitionResult → ℕ → Batch
batch_of result offset = record {
  records = result.records;
  next_offset = cursor_after result.next_offset offset;
  caught_up = is_empty result.records && (cursor_after result.next_offset offset == offset);
}
