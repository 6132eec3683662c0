-- ===== src/Hooks/Matcher/Requests.antt =====
-- The requests that an event is queued as.
use crabforge.Prelude.{
  ℕ, ◌≡◌, refl, sym, ap, ◌∙◌, Bool, false, ◌⊎◌, inl, inr, List, [], ◌∷◌, ◌++◌, append-nil, Option,
  none, some, length, Result, ok, err, Option-cases,
}
use crabforge.Str.{Text, codes}
use crabforge.Bus.Writer.{
  Bytes, WriteError, PendingRecord, Committed, Bus, Run, returned, aborted, state_record, Broker,
  transact,
}
use crabforge.Bus.Writer.Laws.{IsAtomic}
use crabforge.Store.Hooks.{WebhookRecord}
use crabforge.Types.Topics
use crabforge.Hooks.Matcher.{
  write, new_request, delivery_id_of, Json, RawEnvelope, MatchError, queue_records, queued,
}

-- The record is of this event and names this repository in its payload.
abbrev pub IsHeard : Json → Option Bytes → RawEnvelope → Text → Type 0
IsHeard j value event repo_id =
    ((bytes : Bytes) × (value ≡ some bytes) × (j.read_event bytes ≡ some event))
    × (j.payload_text event (codes "repo_id") ≡ some repo_id)

-- The request that the webhook is sent the event with.
abbrev IsRequest : Json → Option Bytes → WebhookRecord → PendingRecord → Type 0
IsRequest j value hook pending =
    (event : RawEnvelope) × (repo_id : Text) × (bytes : Bytes) × IsHeard j value event repo_id
    × (j.encode_request (record {
      delivery_id = j.uuid_text event.event_id ++ codes ":" ++ hook.webhook_id;
      webhook_id = hook.webhook_id;
      repo_id = repo_id;
      event_type = event.event_type;
      body = event.body;
    })
        ≡ some bytes)
    × (pending ≡ state_record (codes "forge.webhooks.deliveries") hook.webhook_id bytes)

-- One request for each webhook, in their order.
abbrev pub AreRequests : Json → Option Bytes → List WebhookRecord → List PendingRecord → Type 0
AreRequests j value [] records = records ≡ []
AreRequests j value (hook ∷ hooks) records =
    (first : PendingRecord) × (rest : List PendingRecord) × (records ≡ first ∷ rest)
    × IsRequest j value hook first
    × AreRequests j value hooks rest

module _ (j : Json) (b : Broker) (reads : Bool) (value : Option Bytes) where
  -- What an error may be due to: the query of the webhooks, a request that cannot be serialised, or
  -- the transaction.
  abbrev IsFailure : List WebhookRecord → Bus → Bus → Type 0
  IsFailure hooks s s' =
      (reads ≡ false)
      ⊎ ((¬ ((records : List PendingRecord) × AreRequests j value hooks records))
          ⊎ ((records : List PendingRecord) × (e : WriteError) × AreRequests j value hooks records
              × (transact b s records ≡ returned (s', err e))))

  -- What fanning out to `hooks` may do.
  abbrev pub IsQueued : List WebhookRecord → Bus → Run (Bus × Result ℕ MatchError) → Type 0
  IsQueued hooks s (returned (s', ok n)) =
      (n ≡ length hooks)
      × ((records : List PendingRecord) × AreRequests j value hooks records
          × (s'.log ≡ s.log ++ records))
  IsQueued hooks s (returned (s', err e)) = (s'.log ≡ s.log) × IsFailure hooks s s'
  IsQueued hooks s (aborted log) =
      (log ≡ s.log)
      ⊎ ((records : List PendingRecord) × AreRequests j value hooks records
          × (log ≡ s.log ++ records))

  pub queue_records-AreRequests :
      (event : RawEnvelope) (repo_id : Text) (hooks : List WebhookRecord)
      (records : List PendingRecord)
      → IsHeard j value event repo_id
      → queue_records j repo_id event hooks ≡ some records
      → AreRequests j value hooks records
  unfolding queue_records new_request delivery_id_of
  queue_records-AreRequests event repo_id [] records heard h =
      let made : some [] ≡ some records = h in let same : records ≡ [] = cc in same
  queue_records-AreRequests event repo_id (hook ∷ hooks) records heard h =
      elim (Option-cases
        (j.encode_request (new_request j.uuid_text hook.webhook_id repo_id event))) [
          | inl e ↦ let failed : none ≡ some records = rw (e, queue_records) at h in absurd cc
          | inr (bytes, e) ↦ elim (Option-cases (queue_records j repo_id event hooks)) [
            | inl e' ↦
                let failed : none ≡ some records = rw (e, queue_records, e') at h in absurd cc
            | inr (rest, e') ↦
                let first = state_record Topics.webhooks_deliveries hook.webhook_id bytes in
                let made : some (first ∷ rest) ≡ some records = rw (e, queue_records, e') at h in
                let same : records ≡ first ∷ rest = cc in
                (
                  first,
                  rest,
                  same,
                  (event, repo_id, bytes, heard, e, refl),
                  queue_records-AreRequests event repo_id hooks rest heard e',
                )
          ]
        ]

  one-IsHeard :
      (event event' : RawEnvelope) (repo_id repo_id' : Text)
      → IsHeard j value event repo_id
      → IsHeard j value event' repo_id'
      → (event' ≡ event) × (repo_id' ≡ repo_id)
  one-IsHeard event event' repo_id repo_id' ((bytes, v, read), named)
        ((bytes', v', read'), named') =
      let both : some bytes' ≡ some bytes = sym v' ∙ v in
      let same : bytes' ≡ bytes = cc in
      let events : some event' ≡ some event = sym read' ∙ (ap j.read_event same ∙ read) in
      let same_event : event' ≡ event = cc in
      let repos : some repo_id' ≡ some repo_id =
        sym named' ∙ (ap (λ e. j.payload_text e (codes "repo_id")) same_event ∙ named) in
      let same_repo : repo_id' ≡ repo_id = cc in (same_event, same_repo)

  -- If every request can be serialised, they are the records.
  queue_records-all :
      (event : RawEnvelope) (repo_id : Text) (hooks : List WebhookRecord)
      (records : List PendingRecord)
      → IsHeard j value event repo_id
      → AreRequests j value hooks records
      → queue_records j repo_id event hooks ≡ some records
  unfolding queue_records new_request delivery_id_of
  queue_records-all event repo_id [] records heard h = ap some (sym h)
  queue_records-all event repo_id (hook ∷ hooks) records heard
        (first, rest, e, (event', repo_id', bytes, heard', encoded, shape), more) =
      let (same_event, same_repo) = one-IsHeard event event' repo_id repo_id' heard heard' in
      let made : j.encode_request (new_request j.uuid_text hook.webhook_id repo_id event)
          ≡ some bytes =
        rw (same_event, same_repo) at encoded in
      let later = queue_records-all event repo_id hooks rest heard more in
      rw (made, queue_records, later) (ap some (sym (e ∙ ap (λ f. f ∷ rest) shape)))

  pub unwritable-IsQueued :
      (event : RawEnvelope) (repo_id : Text) (hooks : List WebhookRecord) (s : Bus)
      → IsHeard j value event repo_id
      → queue_records j repo_id event hooks ≡ none
      → IsQueued hooks s (returned (s, err (write WriteError.encode)))
  unwritable-IsQueued event repo_id hooks s heard h = (
    refl,
    inr (
        inl (λ (records, requests).
          let all = queue_records-all event repo_id hooks records heard requests in
          let bad : none ≡ some records = sym h ∙ all in cc)),
  )

  pub queued-IsQueued :
      (hooks : List WebhookRecord) (s : Bus) (records : List PendingRecord)
      (run : Run (Bus × Result Committed WriteError))
      → transact b s records ≡ run
      → AreRequests j value hooks records
      → IsAtomic s records run
      → IsQueued hooks s (queued (length hooks) run)
  queued-IsQueued hooks s records (returned (s', ok c)) same h atomic =
      (refl, (records, h, atomic.0))
  queued-IsQueued hooks s records (returned (s', err e)) same h atomic =
      (atomic.0, inr (inr (records, e, h, same)))
  queued-IsQueued hooks s records (aborted log) same h (inl e) = inl e
  queued-IsQueued hooks s records (aborted log) same h (inr e) = inr (records, h, e)

  pub nobody-IsQueued : (s : Bus) → IsQueued [] s (returned (s, ok 0))
  nobody-IsQueued s = (refl, ([], refl, sym (append-nil s.log)))
