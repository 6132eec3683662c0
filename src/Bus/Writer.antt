-- ===== src/Bus/Writer.antt =====
-- crates/forge-bus/src/writer.rs: the transactional writer. The producer and the broker behind it
-- are not part of the repository: what they answer to one transaction is the argument `Broker`.
pub mod Laws
pub mod Offsets
use Prim.Native.Nat.{max}
use crabforge.Prelude.{
  ℕ, suc, ◌+◌, ◌≢◌, ◌≡◌, Bool, true, false, List, [], ◌∷◌, ◌++◌, Option, none, some, if◌then◌else◌,
  is_empty, Result, ok, err,
}
use crabforge.Str.{Text, text_eq}
use crabforge.Events.{DomainEvent, Envelope}
use crabforge.Events.Routing.{topic, event_type, aggregate}
use crabforge.Events.Headers.{Header, kafka_headers}

abbrev pub Bytes : Type 0
Bytes = List ℕ

-- What formats and serialises an event: the `Display` of a UUID, the formatting of a time and
-- `serde_json::to_vec` and `from_slice` of an envelope.
pub record Wire : Type 0 where
  pub uuid_text : ℕ → Text
  pub rfc3339 : ℕ → Option Text
  pub encode_event : Envelope → Option Bytes
  pub decode_event : Bytes → Option Envelope

-- The producer's errors that the code names, and the rest.
pub data ProducerError : Type 0 where
  fenced_producer transaction_aborted recovery_required closed : ProducerError
  other : ℕ → ProducerError

pub data WriteError : Type 0 where
  fenced : WriteError
  producer : ProducerError → WriteError
  encode : WriteError

-- `Committed::offsets`
abbrev pub Committed : Type 0
Committed = List (Text × ℕ)

-- `Committed::offset_for`
unfoldable pub offset_for : Text → Committed → Option ℕ
offset_for t [] = none
offset_for t ((u, o) ∷ rest) =
    let later = offset_for t rest in if text_eq u t then some o else later

pub record PendingRecord : Type 0 where
  pub topic : Text
  pub key : Text
  pub value : Option Bytes
  pub headers : List Header

-- `Envelope::new`, with the identifier and the time that it mints.
unfoldable pub new_envelope : Wire → ℕ → ℕ → DomainEvent → Option ℕ → Envelope
unfolding event_type
new_envelope w event_id occurred_at event actor = record {
  event_id = event_id;
  event_type = event_type event;
  event_version = 1;
  aggregate_id = w.uuid_text (aggregate event);
  actor = actor;
  occurred_at = occurred_at;
  payload = event;
}

-- `PendingRecord::event`
unfoldable pub event_record :
    Wire → ℕ → ℕ → DomainEvent → Option ℕ → Result PendingRecord WriteError
unfolding new_envelope kafka_headers topic
event_record w event_id occurred_at event actor =
    let envelope = new_envelope w event_id occurred_at event actor in
    elim (w.encode_event envelope) [
      | none ↦ err encode
      | some bytes ↦ ok (record {
        topic = topic event;
        key = envelope.aggregate_id;
        value = some bytes;
        headers = kafka_headers w.uuid_text w.rfc3339 envelope;
      })
    ]

-- `PendingRecord::state`, after serialisation
abbrev pub state_record : Text → Text → Bytes → PendingRecord
state_record t key bytes = record { topic = t; key = key; value = some bytes; headers = [] }

-- `PendingRecord::tombstone`
abbrev pub tombstone : Text → Text → PendingRecord
tombstone t key = record { topic = t; key = key; value = none; headers = [] }

-- The answer to one `send`: the offset, an error, or a channel that is closed.
pub data Ack : Type 0 where
  acked : ℕ → Ack
  refused : ProducerError → Ack
  dropped : Ack

-- The answer to `commit`. After an error the records may have landed or not.
pub data EndTxn : Type 0 where
  committed : EndTxn
  failed : (error : ProducerError) (landed : Bool) → EndTxn

pub record Broker : Type 0 where
  pub begin : Option ProducerError
  pub ack : ℕ → Ack
  pub commit : EndTxn

-- Documented behaviour of the broker: the outcome of a commit is unknown only after
-- `RecoveryRequired`; any other error means that nothing landed.
abbrev pub IsBroker : Broker → Type 0
IsBroker b =
    (e : ProducerError) (landed : Bool)
    → b.commit ≡ failed e landed
    → e ≢ recovery_required
    → landed ≡ false

-- One writer and the log that it appends to: every record that the broker has committed.
pub record Bus : Type 0 where
  pub fenced : Bool
  pub log : List PendingRecord

-- A call returns, or the handler of an indeterminate outcome ends the process and leaves the log.
pub data Run (A : Type 0) : Type 0 where
  returned : A → Run A
  aborted : List PendingRecord → Run A

-- `classify`, whose handler is `abort_process`
unfoldable pub classify : Bus → ProducerError → Run (Bus × WriteError)
classify b fenced_producer = returned (record b { fenced = true }, WriteError.fenced)
classify b transaction_aborted = returned (record b { fenced = true }, WriteError.fenced)
classify b recovery_required = aborted b.log
classify b e = returned (b, producer e)

abbrev pub reject : Run (Bus × WriteError) → Run (Bus × Result Committed WriteError)
reject (returned (b, e)) = returned (b, err e)
reject (aborted log) = aborted log

-- The update of `offsets` for one acknowledgement.
unfoldable pub note_offset : Text → ℕ → Committed → Committed
note_offset t o [] = (t, o) ∷ []
note_offset t o ((u, p) ∷ rest) =
    let later = note_offset t o rest in if text_eq u t then (u, max p o) ∷ rest else (u, p) ∷ later

-- Why the collection of acknowledgements stopped.
pub data Stopped : Type 0 where
  send_failed : ProducerError → Stopped
  channel_closed : Stopped

-- The loop over the acknowledgements of the records from the `i`-th on.
unfoldable pub collect : Broker → ℕ → List PendingRecord → Committed → Result Committed Stopped
unfolding note_offset
collect b i [] offsets = ok offsets
collect b i (r ∷ rs) offsets = elim (b.ack i) [
  | acked o ↦ collect b (suc i) rs (note_offset r.topic o offsets)
  | refused e ↦ err (send_failed e)
  | dropped ↦ err channel_closed
]

-- `txn.commit()` and the end of `transact`
unfoldable pub end_transaction :
    Bus → EndTxn → List PendingRecord → Committed → Run (Bus × Result Committed WriteError)
unfolding classify
end_transaction s committed records offsets =
    returned (record s { log = s.log ++ records }, ok offsets)
end_transaction s (failed e landed) records offsets =
    reject (classify (if landed then record s { log = s.log ++ records } else s) e)

-- `FencedWriter::transact`
unfoldable pub transact :
    Broker → Bus → List PendingRecord → Run (Bus × Result Committed WriteError)
unfolding classify collect end_transaction
transact b s records =
    if s.fenced
    then returned (s, err WriteError.fenced)
    else if is_empty records
    then returned (s, ok [])
    else elim b.begin [
      | some e ↦ reject (classify s e)
      | none ↦ elim (collect b 0 records []) [
        | err (send_failed e) ↦ reject (classify s e)
        | err channel_closed ↦ returned (s, err (producer closed))
        | ok offsets ↦ end_transaction s b.commit records offsets
      ]
    ]
