-- ===== src/Hooks/Matcher/FanOut.antt =====
-- An event reaches all of its subscribers or none.
use crabforge.Prelude.{
  ℕ, ◌≡◌, ◌∙◌, refl, sym, ap, inl, inr, Bool, true, List, [], ◌∷◌, Option, none, some, is_empty,
  map, Result, Bool-cases, Option-cases,
}
use crabforge.Str.{Text}
use crabforge.Bus.Writer.{Bytes, Broker, IsBroker, Bus, Run, transact}
use crabforge.Bus.Writer.Laws.{transact-IsAtomic}
use crabforge.Store.Table.{Table}
use crabforge.Hooks.Matcher.Requests.{
  IsHeard, IsQueued, unwritable-IsQueued, queue_records-AreRequests, queued-IsQueued,
  nobody-IsQueued,
}
use crabforge.Hooks.Matcher.Subscribers.{IsSubscriber, Picks, none-Picks, iff-Picks, wanting-Picks}
use crabforge.Store.Hooks.{WebhookRecord, HookTables, for_repo_hooks}
use crabforge.Hooks.Matcher.{
  Json, RawEnvelope, MatchError, readable_event, repo_of, wanting, queue_records, fan_out,
}

-- An active webhook of the repository that the record names, with a pattern that covers the event.
abbrev pub Subscribes : Json → Option Bytes → WebhookRecord → Type 0
Subscribes j value hook =
    (event : RawEnvelope) × (repo_id : Text) × IsHeard j value event repo_id
    × ((hook.repo_id ≡ repo_id) × IsSubscriber event.event_type hook)

-- The subscribers among the webhooks are picked, and the event is queued for them.
abbrev pub IsFanOut :
    Json
    → Broker
    → Bool
    → Option Bytes
    → Table WebhookRecord
    → Bus
    → Run (Bus × Result ℕ MatchError)
    → Type 0
IsFanOut j b reads value t s run =
    (hooks : List WebhookRecord) × Picks (Subscribes j value) (map (λ row. row.1) t) hooks
    × IsQueued j b reads value hooks s run

module _ (j : Json) (value : Option Bytes) where
  readable_event-IsRead :
      (event : RawEnvelope)
      → readable_event j value ≡ some event
      → (bytes : Bytes) × (value ≡ some bytes) × (j.read_event bytes ≡ some event)
  unfolding readable_event
  readable_event-IsRead event h = elim (Option-cases value) [
    | inl e ↦ absurd (let bad : none ≡ some event = rw (e, readable_event) at h in cc)
    | inr (bytes, e) ↦ (bytes, e, rw (e, readable_event) at h)
  ]

  readable_event_of :
      (event : RawEnvelope) (repo_id : Text)
      → IsHeard j value event repo_id
      → (readable_event j value ≡ some event) × (repo_of j event ≡ some repo_id)
  unfolding readable_event repo_of
  readable_event_of event repo_id ((bytes, e, read), named) = (rw (e, readable_event) read, named)

  unread-Picks :
      (t : Table WebhookRecord)
      → readable_event j value ≡ none
      → Picks (Subscribes j value) (map (λ row. row.1) t) []
  unread-Picks t e =
      none-Picks (Subscribes j value) (map (λ row. row.1) t) (λ hook (event, repo_id, heard, rest).
        let (read, named) = readable_event_of event repo_id heard in
        let bad : none ≡ some event = sym e ∙ read in cc)

  unnamed-Picks :
      (t : Table WebhookRecord) (event : RawEnvelope)
      → readable_event j value ≡ some event
      → repo_of j event ≡ none
      → Picks (Subscribes j value) (map (λ row. row.1) t) []
  unnamed-Picks t event e r =
      none-Picks (Subscribes j value) (map (λ row. row.1) t) (λ hook (event', repo_id, heard, rest).
        let (read, named) = readable_event_of event' repo_id heard in
        let bad : some event ≡ some event' = sym e ∙ read in
        let same : event ≡ event' = cc in
        let worse : none ≡ some repo_id = sym r ∙ (ap (repo_of j) same ∙ named) in cc)

  heard-Picks :
      (t : HookTables) (event : RawEnvelope) (repo_id : Text)
      → readable_event j value ≡ some event
      → repo_of j event ≡ some repo_id
      → IsHeard j value event repo_id
      → Picks
          (Subscribes j value)
          (map (λ row. row.1) t.webhooks)
          (wanting event.event_type (for_repo_hooks repo_id t))
  unfolding for_repo_hooks
  heard-Picks t event repo_id e r heard =
      iff-Picks (λ hook. (hook.repo_id ≡ repo_id) × IsSubscriber event.event_type hook)
        (Subscribes j value) (map (λ row. row.1) t.webhooks)
        (wanting event.event_type (for_repo_hooks repo_id t))
        (λ hook. (
          λ s. (event, repo_id, heard, s),
          λ (event', repo_id', heard', s).
              let (read, named) = readable_event_of event' repo_id' heard' in
              let events : some event' ≡ some event = sym read ∙ e in
              let same : event' ≡ event = cc in
              let repos : some repo_id' ≡ some repo_id = sym named ∙ (ap (repo_of j) same ∙ r) in
              let same_repo : repo_id' ≡ repo_id = cc in (s.0 ∙ same_repo, rw (← same) s.1),
        ))
        (wanting-Picks event.event_type repo_id t.webhooks)

nil_of_empty : (hooks : List WebhookRecord) → is_empty hooks ≡ true → hooks ≡ []
nil_of_empty [] h = refl
nil_of_empty (hook ∷ hooks) h = cc

-- On a broker that behaves as documented: the webhooks that a record is fanned out to are, in the order
-- of the table, those that are active, belong to the repository that the event's payload names, and have
-- a pattern that covers the event's type (`*`, the type, or `prefix.*` for a type `prefix.rest`); there
-- is none if the record cannot be read or names no repository. If the answer is a count, it is theirs,
-- and the log has grown by one request for each of them, under its identifier and in their order. If the
-- answer is an error, the log is as it was, and the query of the webhooks was not answered, a request
-- cannot be serialised, or the transaction of the requests failed. If the process ends in it, all of the
-- requests landed or none.
pub fan_out-IsFanOut :
    (j : Json) (b : Broker) (reads : Bool) (t : HookTables) (value : Option Bytes) (s : Bus)
    → IsBroker b
    → IsFanOut j b reads value t.webhooks s (fan_out j b reads t value s)
unfolding fan_out repo_of
fan_out-IsFanOut j b reads t value s broker = elim (Option-cases (readable_event j value)) [
  | inl e ↦
      rw (e, fan_out) ([], unread-Picks j value t.webhooks e, nobody-IsQueued j b reads value s)
  | inr (event, e) ↦ elim (Option-cases (repo_of j event)) [
    | inl r ↦
        rw (e, fan_out, r)
          ([], unnamed-Picks j value t.webhooks event e r, nobody-IsQueued j b reads value s)
    | inr (repo_id, r) ↦
        let hooks = wanting event.event_type (for_repo_hooks repo_id t) in
        let heard : IsHeard j value event repo_id = (readable_event-IsRead j value event e, r) in
        let picks = heard-Picks j value t event repo_id e r heard in
        elim (Bool-cases reads) [
          | inr q ↦ (hooks, picks, rw (e, fan_out, r, q) (refl, inl refl))
          | inl q ↦ elim (Bool-cases (is_empty hooks)) [
            | inl n ↦ (
              hooks,
              picks,
              rw (e, fan_out, r, q, n)
                  (rw (nil_of_empty hooks n) (nobody-IsQueued j b true value s)),
            )
            | inr n ↦ elim (Option-cases (queue_records j repo_id event hooks)) [
              | inl m ↦ (
                hooks,
                picks,
                rw (e, fan_out, r, q, n, m)
                    (unwritable-IsQueued j b true value event repo_id hooks s heard m),
              )
              | inr (records, m) ↦ (
                hooks,
                picks,
                rw (e, fan_out, r, q, n, m)
                    (queued-IsQueued j b true value hooks s records (transact b s records) refl
                      (queue_records-AreRequests j b true value event repo_id hooks records heard m)
                      (transact-IsAtomic b s records broker)),
              )
            ]
          ]
        ]
  ]
]
