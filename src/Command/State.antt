-- ===== src/Command/State.antt =====
-- crates/forge-command/src/lib.rs: errors, the service's state, its boot, and what every command
-- does with a transaction. `self.state.lock()` serialises the commands, so each is one step.
pub mod Replay
use crabforge.Prelude.{
  ℕ, Bool, List, [], ◌∷◌, Option, none, some, ltb, if◌then◌else◌, is_empty, length, Result, ok, err,
  and_then, not, false,
}
use crabforge.Str.{Text, text_eq, trim}
use crabforge.Types.Names.{InvalidName}
use crabforge.Types.Topics
use crabforge.Bus.Writer.{
  PendingRecord, WriteError, Committed, Broker, Bus, Run, returned, aborted, event_record, transact,
}
use crabforge.Events.{DomainEvent}
use crabforge.Command.Catalog.{Catalog, new_catalog, apply_claim}
use crabforge.Command.Refs.{RefMap, new_ref_map, apply_ref}
use crabforge.Command.Platform.{Platform}

pub data CommandError : Type 0 where
  username_taken repo_exists unknown_user unknown_issue : CommandError
  invalid_name : InvalidName → CommandError
  empty : (field : Text) → CommandError
  too_long : (field : Text) (max : ℕ) → CommandError
  bad_request : Text → CommandError
  stale_merge : (expected : Text) (actual : Option Text) → CommandError
  topic : CommandError
  write : WriteError → CommandError
  replay : CommandError

pub record Outcome : Type 0 where
  pub id : ℕ
  pub committed : Committed

-- `CommandService`: its writer with the log behind it, and `State`.
pub record Service : Type 0 where
  pub bus : Bus
  pub catalog : Catalog
  pub refs : RefMap

-- What one command draws from outside: the broker's answers, the identifier of the new aggregate,
-- those of its events with their times, and whether the object topic could be provisioned.
pub record Ambient : Type 0 where
  pub broker : Broker
  pub id : ℕ
  pub event_id : ℕ → ℕ
  pub occurred_at : ℕ → ℕ
  pub topic_ready : Bool

abbrev pub max_title : ℕ
max_title = 255

abbrev pub max_body : ℕ
max_body = 65536

unfoldable pub validated : Text → Text → ℕ → Result Text CommandError
unfolding trim
validated text field max =
    let trimmed = trim text in
    if is_empty trimmed
    then err (empty field)
    else if ltb max (length trimmed)
    then err (too_long field max)
    else ok trimmed

-- `body.filter(|b| !b.trim().is_empty())`
unfoldable pub non_blank : Option Text → Option Text
unfolding trim
non_blank none = none
non_blank (some body) = if not (is_empty (trim body)) then some body else none

-- The fold of one state topic of the log; a record of another topic is not in it.
unfoldable pub replay_claims : Platform → List PendingRecord → Catalog → Catalog
unfolding apply_claim text_eq
replay_claims p [] claims = claims
replay_claims p (r ∷ rs) claims = replay_claims p rs (
    if text_eq r.topic Topics.meta_catalog
    then apply_claim p.decode_claim r.key r.value claims
    else claims)

unfoldable pub replay_refs : Platform → List PendingRecord → RefMap → RefMap
unfolding apply_ref text_eq
replay_refs p [] refs = refs
replay_refs p (r ∷ rs) refs =
    replay_refs p rs
      (if text_eq r.topic Topics.git_refs then apply_ref p.decode_ref r.key r.value refs else refs)

-- `CommandService::start`, once the writer is connected and both topics are read to the end.
unfoldable pub start : Platform → List PendingRecord → Service
unfolding replay_claims replay_refs
start p log = record {
  bus = record { fenced = false; log = log };
  catalog = replay_claims p log new_catalog;
  refs = replay_refs p log new_ref_map;
}

-- `PendingRecord::event` for the `i`-th event of a command
unfoldable pub pending :
    Platform → Ambient → ℕ → DomainEvent → Option ℕ → Result PendingRecord WriteError
unfolding event_record
pending p a i event actor = event_record p.wire (a.event_id i) (a.occurred_at i) event actor

-- `vec![PendingRecord::event(..)?, ..]`
abbrev pub with_event :
    Result PendingRecord WriteError
    → Result (List PendingRecord) WriteError
    → Result (List PendingRecord) WriteError
with_event (err e) rest = err e
with_event (ok r) (err e) = err e
with_event (ok r) (ok rest) = ok (r ∷ rest)

-- What a command does with the answer to its transaction: on success it adopts the new state.
abbrev pub conclude :
    {A : Type 0}
    → Service
    → Catalog
    → RefMap
    → (Committed → A)
    → Run (Bus × Result Committed WriteError)
    → Run (Service × Result A CommandError)
conclude s catalog refs reply (returned (b, ok c)) =
    returned (record { bus = b; catalog = catalog; refs = refs }, ok (reply c))
conclude s catalog refs reply (returned (b, err e)) = returned (record s { bus = b }, err (write e))
conclude s catalog refs reply (aborted log) = aborted log

-- `self.writer.transact(records?).await?`, and the rest of a command
unfoldable pub commit :
    {A : Type 0}
    → Ambient
    → Service
    → Result (List PendingRecord) WriteError
    → Catalog
    → RefMap
    → (Committed → A)
    → Run (Service × Result A CommandError)
unfolding transact
commit a s (err e) catalog refs reply = returned (s, err (write e))
commit a s (ok records) catalog refs reply =
    conclude s catalog refs reply (transact a.broker s.bus records)
