-- ===== src/Hooks/Matcher.antt =====
-- crates/forge-hooks/src/matcher.rs and queue.rs: who hears about an event. What `serde_json` makes of
-- a record, and of a text in its payload (`get` and `as_str`), is the argument `Json`.
pub mod FanOut
pub mod Subscribers
pub mod Requests
use crabforge.Prelude.{
  ℕ, Bool, true, false, not, List, [], ◌∷◌, ◌++◌, Option, none, some, if◌then◌else◌, is_empty,
  length, Result, ok, err,
}
use crabforge.Str.{Text, codes}
use crabforge.Types.Topics
use crabforge.Bus.Writer.{
  Bytes, WriteError, PendingRecord, Committed, Broker, Bus, Run, returned, aborted, state_record,
  transact,
}
use crabforge.Store.Hooks.{WebhookRecord, HookTables, wants, for_repo_hooks}
use crabforge.Hooks.Worker.{DeliveryRequest}

-- A `RawEnvelope`, with the bytes that it is serialised as.
pub record RawEnvelope : Type 0 where
  pub event_id : ℕ
  pub event_type : Text
  pub body : Bytes

pub record Json : Type 0 where
  pub uuid_text : ℕ → Text
  pub read_event : Bytes → Option RawEnvelope
  pub payload_text : RawEnvelope → Text → Option Text
  pub encode_request : DeliveryRequest → Option Bytes

pub data MatchError : Type 0 where
  store : MatchError
  write : WriteError → MatchError

-- `delivery_id`
unfoldable pub delivery_id_of : (ℕ → Text) → ℕ → Text → Text
delivery_id_of uuid_text event_id webhook_id = uuid_text event_id ++ codes ":" ++ webhook_id

-- `DeliveryRequest::new`
unfoldable pub new_request : (ℕ → Text) → Text → Text → RawEnvelope → DeliveryRequest
unfolding delivery_id_of
new_request uuid_text webhook_id repo_id event = record {
  delivery_id = delivery_id_of uuid_text event.event_id webhook_id;
  webhook_id = webhook_id;
  repo_id = repo_id;
  event_type = event.event_type;
  body = event.body;
}

unfoldable pub readable_event : Json → Option Bytes → Option RawEnvelope
readable_event j none = none
readable_event j (some bytes) = j.read_event bytes

unfoldable pub repo_of : Json → RawEnvelope → Option Text
repo_of j event = j.payload_text event (codes "repo_id")

-- The `filter` of `fan_out`.
unfoldable pub wanting : Text → List WebhookRecord → List WebhookRecord
unfolding wants
wanting event_type [] = []
wanting event_type (hook ∷ hooks) =
    let rest = wanting event_type hooks in if wants hook event_type then hook ∷ rest else rest

-- The `map` and the `collect` of `fan_out`; none if a request cannot be serialised.
unfoldable pub queue_records :
    Json → Text → RawEnvelope → List WebhookRecord → Option (List PendingRecord)
unfolding new_request
queue_records j repo_id event [] = some []
queue_records j repo_id event (hook ∷ hooks) =
    elim (j.encode_request (new_request j.uuid_text hook.webhook_id repo_id event)) [
      | none ↦ none
      | some bytes ↦ elim (queue_records j repo_id event hooks) [
        | none ↦ none
        | some records ↦
            some (state_record Topics.webhooks_deliveries hook.webhook_id bytes ∷ records)
      ]
    ]

abbrev pub queued : ℕ → Run (Bus × Result Committed WriteError) → Run (Bus × Result ℕ MatchError)
queued n (returned (s, ok _)) = returned (s, ok n)
queued n (returned (s, err e)) = returned (s, err (write e))
queued n (aborted log) = aborted log

-- `Matcher::fan_out`; `reads` tells if the query of the webhooks is answered.
unfoldable pub fan_out :
    Json → Broker → Bool → HookTables → Option Bytes → Bus → Run (Bus × Result ℕ MatchError)
unfolding readable_event repo_of wanting for_repo_hooks queue_records transact
fan_out j b reads t value s = elim (readable_event j value) [
  | none ↦ returned (s, ok 0)
  | some event ↦ elim (repo_of j event) [
    | none ↦ returned (s, ok 0)
    | some repo_id ↦
        if not reads
        then returned (s, err store)
        else if is_empty (wanting event.event_type (for_repo_hooks repo_id t))
        then returned (s, ok 0)
        else elim (queue_records j repo_id event
            (wanting event.event_type (for_repo_hooks repo_id t))) [
              | none ↦ returned (s, err (write WriteError.encode))
              | some records ↦
                  queued (length (wanting event.event_type (for_repo_hooks repo_id t)))
                    (transact b s records)
            ]
  ]
]
