-- ===== src/Hooks/Worker.antt =====
-- crates/forge-hooks/src/worker.rs: a queued request and its attempts. Each attempt's answers are the
-- argument `Answers`.
pub mod Keys
pub mod Ended
pub mod DeadLetters
pub mod Attempts
pub mod Steps
use crabforge.Prelude.{
  ℕ, zero, suc, ◌+◌, Bool, true, false, List, [], ◌∷◌, ◌++◌, Option, none, some, if◌then◌else◌, leb,
  not, Result, ok, err, is_empty,
}
use crabforge.Str.{Text, codes}
use crabforge.Bus.Writer.{
  Bytes, WriteError, Broker, Bus, Run, returned, aborted, state_record, transact, Committed,
}
use crabforge.Events.Headers.{decimal}
use crabforge.Types.Topics
use crabforge.Bus.Tailer.{TailError, FetchedRecord, FetchPartitionResult, Tailer, next_batch}
use crabforge.Store.Hooks.{DeliveryRecord, HookTables, hook_by_id, record_attempt}
use crabforge.Hooks.Delivery.{
  DeliveryOutcome, delivered, retry, permanent, Receiver, max_attempts, status_word, send,
}

-- A queued request, with the type of its event and the bytes to POST.
pub record DeliveryRequest : Type 0 where
  pub delivery_id : Text
  pub webhook_id : Text
  pub repo_id : Text
  pub event_type : Text
  pub body : Bytes

-- What comes of a statement that writes: it takes effect and is answered, it fails without effect, or
-- it takes effect and its answer is lost, which its caller sees as a failure.
pub data Statement : Type 0 where
  applied not_applied unanswered : Statement

-- What a request meets. `reads` tells if the query of its webhook is answered; by the number of an
-- attempt, there are the receiver, the clock and what comes of the statement that records it. A dead
-- letter is serialised, or cannot be, and the broker answers to its transaction.
pub record Answers : Type 0 where
  pub allow_private_targets : Bool
  pub reads : Bool
  pub writes : ℕ → Statement
  pub receiver : ℕ → Receiver
  pub now : ℕ → ℕ
  pub encode_dead : DeliveryRequest → Text → Option Bytes
  pub broker : Broker

pub data WorkerError : Type 0 where
  tail : TailError → WorkerError
  store : WorkerError
  write : WriteError → WorkerError

-- What the worker changes.
pub record Delivering : Type 0 where
  pub tables : HookTables
  pub bus : Bus

abbrev pub Done : Type 0
Done = Unit

-- `format!("{}#{attempt}", request.delivery_id)`
unfoldable pub attempt_key : DeliveryRequest → ℕ → Text
unfolding decimal
attempt_key request attempt = request.delivery_id ++ codes "#" ++ decimal 20 attempt []

-- The row of `Worker::record`.
unfoldable pub attempt_row : DeliveryRequest → ℕ → DeliveryOutcome → ℕ → DeliveryRecord
unfolding attempt_key status_word
attempt_row request attempt outcome created_at = record {
  delivery_id = attempt_key request attempt;
  webhook_id = request.webhook_id;
  repo_id = request.repo_id;
  event_type = request.event_type;
  event_id = request.delivery_id;
  attempt = attempt;
  status = status_word outcome attempt;
  status_code = elim outcome [
    | delivered status _ ↦ some status
    | retry _ status ↦ status
    | permanent _ status ↦ status
  ];
  error = elim outcome [
    | delivered _ _ ↦ none
    | retry reason _ ↦ some reason
    | permanent reason _ ↦ some reason
  ];
  duration_ms = elim outcome [
    | delivered _ duration ↦ some duration
    | retry _ _ ↦ none
    | permanent _ _ ↦ none
  ];
  created_at = created_at;
}

-- `self.record(..).await`: whether it is answered with success, and the tables after it.
unfoldable pub write_row : Statement → DeliveryRecord → HookTables → Result HookTables HookTables
unfolding record_attempt
write_row not_applied row t = err t
write_row unanswered row t = elim (record_attempt row t) [ none ↦ err t | some t' ↦ err t' ]
write_row applied row t = elim (record_attempt row t) [ none ↦ err t | some t' ↦ ok t' ]

abbrev pub after_dead :
    Delivering
    → Run (Bus × Result Committed WriteError)
    → Run (Delivering × Result Done WorkerError)
after_dead s (returned (b, ok _)) = returned (record s { bus = b }, ok tt)
after_dead s (returned (b, err e)) = returned (record s { bus = b }, err (write e))
after_dead s (aborted log) = aborted log

-- `Worker::dead_letter`
unfoldable pub dead_letter :
    Answers → DeliveryRequest → Text → Delivering → Run (Delivering × Result Done WorkerError)
unfolding transact
dead_letter a request reason s = elim (a.encode_dead request reason) [
  | none ↦ returned (s, err (write WriteError.encode))
  | some bytes ↦
      after_dead s
        (transact a.broker s.bus (state_record Topics.webhooks_dlq request.webhook_id bytes ∷ []))
]

-- What an attempt comes to.
unfoldable pub attempted : Answers → DeliveryRequest → ℕ → DeliveryOutcome
unfolding send
attempted a request attempt = send a.allow_private_targets (a.receiver attempt) request.body

-- The loop over the attempts, from number `attempt` on, with the count of those left.
unfoldable pub deliver_from :
    Answers → DeliveryRequest → ℕ → ℕ → Delivering → Run (Delivering × Result Done WorkerError)
unfolding attempted attempt_row write_row dead_letter
deliver_from a request zero attempt s = returned (s, ok tt)
deliver_from a request (suc left) attempt s =
    elim (write_row (a.writes attempt)
      (attempt_row request attempt (attempted a request attempt) (a.now attempt)) s.tables) [
        | err tables ↦ returned (record s { tables = tables }, err store)
        | ok tables ↦ elim (attempted a request attempt) [
          | delivered _ _ ↦ returned (record s { tables = tables }, ok tt)
          | permanent reason _ ↦ dead_letter a request reason (record s { tables = tables })
          | retry reason _ ↦ elim (leb max_attempts attempt) [
            | true ↦ dead_letter a request reason (record s { tables = tables })
            | false ↦ deliver_from a request left (suc attempt) (record s { tables = tables })
          ]
        ]
      ]

-- `Worker::deliver_with_retries`
unfoldable pub deliver_with_retries :
    Answers → DeliveryRequest → Delivering → Run (Delivering × Result Done WorkerError)
unfolding deliver_from hook_by_id
deliver_with_retries a request s =
    if not a.reads then returned (s, err store) else elim (hook_by_id request.webhook_id s.tables) [
      | none ↦ returned (s, ok tt)
      | some hook ↦
          if not hook.active then returned (s, ok tt) else deliver_from a request max_attempts 1 s
    ]

-- A worker of one partition, with the cursor that is stored for it.
pub record Worker : Type 0 where
  pub tailer : Tailer
  pub state : Delivering
  pub cursor : ℕ

-- `readable_request`, of what `serde_json` makes of a value.
unfoldable pub readable_request :
    (Bytes → Option DeliveryRequest) → Option Bytes → Option DeliveryRequest
readable_request decode none = none
readable_request decode (some bytes) = decode bytes

-- The loop over the records of a batch, from the `i`-th on.
unfoldable pub deliver_all :
    (Bytes → Option DeliveryRequest)
    → (ℕ → Answers)
    → ℕ
    → List FetchedRecord
    → ℕ
    → Delivering
    → Run (Delivering × Result ℕ WorkerError)
unfolding readable_request deliver_with_retries
deliver_all decode answers i [] handled s = returned (s, ok handled)
deliver_all decode answers i (r ∷ rs) handled s = elim (readable_request decode r.value) [
  | none ↦ deliver_all decode answers (suc i) rs handled s
  | some request ↦ elim (deliver_with_retries (answers i) request s) [
    | aborted log ↦ aborted log
    | returned (s', err e) ↦ returned (s', err e)
    | returned (s', ok _) ↦ deliver_all decode answers (suc i) rs (handled + 1) s'
  ]
]

-- What the end of a batch makes of the worker; `moves` is what comes of the
-- statement that stores the cursor.
abbrev pub end_step :
    Statement
    → ℕ
    → Worker
    → Run (Delivering × Result ℕ WorkerError)
    → Run (Worker × Result ℕ WorkerError)
end_step moves next w (aborted log) = aborted log
end_step moves next w (returned (s, err e)) = returned (record w { state = s }, err e)
end_step applied next w (returned (s, ok handled)) =
    returned (record w { state = s; cursor = next }, ok handled)
end_step not_applied next w (returned (s, ok handled)) =
    returned (record w { state = s }, err store)
end_step unanswered next w (returned (s, ok handled)) =
    returned (record w { state = s; cursor = next }, err store)

-- `Worker::step`
unfoldable pub worker_step :
    (ℕ → Result FetchPartitionResult TailError)
    → (Bytes → Option DeliveryRequest)
    → (ℕ → Answers)
    → Statement
    → Worker
    → Run (Worker × Result ℕ WorkerError)
unfolding next_batch deliver_all
worker_step fetch decode answers moves w = elim (next_batch fetch w.tailer) [
  | err e ↦ returned (w, err (tail e))
  | ok (t, batch) ↦ elim (is_empty batch.records) [
    | true ↦ returned (record w { tailer = t }, ok 0)
    | false ↦
        end_step moves batch.next_offset (record w { tailer = t })
          (deliver_all decode answers 0 batch.records 0 w.state)
  ]
]
