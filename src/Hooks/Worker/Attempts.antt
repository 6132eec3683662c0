-- ===== src/Hooks/Worker/Attempts.antt =====
-- What becomes of one request.
use crabforge.Prelude.{
  ℕ, zero, suc, ◌+◌, ◌≤◌, ◌<◌, ◌≡◌, refl, ◌∙◌, inl, inr, Bool, true, false, some, arith, ◌&&◌, leb,
  ltb, Result, ok, err, Bool-cases,
}
use crabforge.HashMap
use crabforge.Bus.Writer.{Run, returned, IsBroker}
use crabforge.Store.Table.{Table}
use crabforge.Store.Hooks.{WebhookRecord, DeliveryRecord, HookTables, hook_by_id, record_attempt}
use crabforge.Hooks.Delivery.{DeliveryOutcome, delivered, retry, permanent, max_attempts}
use crabforge.Hooks.Worker.{
  DeliveryRequest, Answers, WorkerError, store, Statement, applied, not_applied, unanswered,
  write_row, Delivering, Done, attempt_key, attempt_row, attempted, dead_letter, deliver_from,
  deliver_with_retries,
}
use crabforge.Hooks.Worker.DeadLetters.{conclude_with, IsConclusion, conclude_with-IsConclusion}
use crabforge.Hooks.Worker.Ended.{
  is_retry, row_of, AreNew, stored, Ended, record_new, row-Ended, earlier-Ended, insert-AreNew,
}

last_one :
    (b : Bool) (lo : ℕ)
    → b && ltb lo max_attempts ≡ false
    → lo ≤ max_attempts
    → b ≡ true
    → lo ≡ max_attempts
last_one b lo h k r = ground arith

write_row_again :
    (w : Statement) (row old : DeliveryRecord) (t : HookTables)
    → HashMap.get row.delivery_id t.deliveries ≡ some old
    → write_row w row t ≡ err t
unfolding write_row record_attempt
write_row_again applied row old t h = rw (h, write_row, record_attempt) refl
write_row_again not_applied row old t h = refl
write_row_again unanswered row old t h = rw (h, write_row, record_attempt) refl

module _ (a : Answers) (request : DeliveryRequest) where
  -- What follows an attempt that was recorded.
  abbrev after_attempt :
      DeliveryOutcome → ℕ → ℕ → Delivering → Run (Delivering × Result Done WorkerError)
  after_attempt outcome left attempt s = elim outcome [
    | delivered _ _ ↦ returned (s, ok tt)
    | permanent reason _ ↦ dead_letter a request reason s
    | retry reason _ ↦ elim (leb max_attempts attempt) [
      | true ↦ dead_letter a request reason s
      | false ↦ deliver_from a request left (suc attempt) s
    ]
  ]

  deliver_from-recorded :
      (left attempt : ℕ) (s : Delivering) (tables : HookTables)
      → a.writes attempt ≡ applied
      → record_attempt (row_of a request attempt) s.tables ≡ some tables
      → deliver_from a request (suc left) attempt s
        ≡ after_attempt (attempted a request attempt) left attempt (record s { tables = tables })
  unfolding deliver_from write_row
  deliver_from-recorded left attempt s tables w h = rw (w, deliver_from, write_row, h) refl

  after_attempt_final :
      (outcome : DeliveryOutcome) (left attempt : ℕ) (s : Delivering)
      → (is_retry outcome ≡ true → attempt ≡ max_attempts)
      → after_attempt outcome left attempt s ≡ conclude_with a request outcome s
  after_attempt_final (delivered _ _) left attempt s h = refl
  after_attempt_final (permanent _ _) left attempt s h = refl
  after_attempt_final (retry reason _) left attempt s h =
      let at_end : attempt ≡ max_attempts = h refl in rw at_end refl

  after_attempt_again :
      (outcome : DeliveryOutcome) (left attempt : ℕ) (s : Delivering)
      → is_retry outcome ≡ true
      → attempt < max_attempts
      → after_attempt outcome left attempt s ≡ deliver_from a request left (suc attempt) s
  after_attempt_again (delivered _ _) left attempt s h k = absurd cc
  after_attempt_again (permanent _ _) left attempt s h k = absurd cc
  after_attempt_again (retry reason _) left attempt s h k =
      let more : leb max_attempts attempt ≡ false = ground arith in rw (more, after_attempt) refl

  -- What the loop returns, from attempt `lo` on.
  abbrev pub IsDelivery : ℕ → Delivering → Run (Delivering × Result Done WorkerError) → Type 0
  IsDelivery lo s run =
      (n : ℕ) × (t : Table DeliveryRecord) × Ended a request lo n s.tables.deliveries t
      × IsConclusion a request (attempted a request n)
          (record s { tables = stored a request s.tables t }) run

  deliver_from-IsDelivery :
      (left lo : ℕ) (s : Delivering)
      → left + lo ≡ suc max_attempts
      → 0 < left
      → IsBroker a.broker
      → ((m : ℕ) → a.writes m ≡ applied)
      → AreNew a request lo s.tables.deliveries
      → IsDelivery lo s (deliver_from a request left lo s)
  unfolding deliver_from
  deliver_from-IsDelivery zero lo s h k broker writes fresh = absurd (omega arith)
  deliver_from-IsDelivery (suc left) lo s h k broker writes fresh =
      let t = HashMap.insert (attempt_key request lo) (row_of a request lo) s.tables.deliveries in
      let recorded = record_new a request lo s.tables (fresh lo (omega arith) (omega arith)) in
      let tables = stored a request s.tables t in
      let step = deliver_from-recorded left lo s tables (writes lo) recorded in
      elim (Bool-cases (is_retry (attempted a request lo) && ltb lo max_attempts)) [
        | inl again ↦
            let failing : is_retry (attempted a request lo) ≡ true = ground (arith, again) in
            let early : lo < max_attempts = ground (arith, again) in
            let (n, t', ended, rest) =
              deliver_from-IsDelivery left (suc lo) (record s { tables = tables }) (omega arith)
                (omega (arith, early)) broker writes
                (insert-AreNew a request lo s.tables.deliveries fresh) in
            (
              n,
              t',
              earlier-Ended a request lo n s.tables.deliveries t' ended.from ended.bounded failing
                  ended,
              rw
                  (step
                    ∙ after_attempt_again (attempted a request lo) left lo
                        (record s { tables = tables }) failing early)
                  rest,
            )
        | inr last ↦
            let final : is_retry (attempted a request lo) ≡ true → lo ≡ max_attempts =
              λ r. last_one (is_retry (attempted a request lo)) lo last (omega arith) r in
            (
              lo,
              t,
              row-Ended a request lo s.tables.deliveries (omega arith) final,
              rw
                  (step
                    ∙ after_attempt_final (attempted a request lo) left lo
                        (record s { tables = tables }) final)
                  (conclude_with-IsConclusion a request (attempted a request lo)
                    (record s { tables = tables }) broker),
            )
      ]

  begins :
      (hook : WebhookRecord) (s : Delivering)
      → a.reads ≡ true
      → hook_by_id request.webhook_id s.tables ≡ some hook
      → hook.active ≡ true
      → deliver_with_retries a request s ≡ deliver_from a request max_attempts 1 s
  unfolding deliver_with_retries
  begins hook s reads found active = rw (reads, deliver_with_retries, found, active) refl

  -- If the database answers, the broker behaves as documented, the webhook is there and active and no
  -- attempt of the request is recorded yet, then some attempt number `n`, from 1 to the highest allowed, is the last: attempts 1 to `n` are recorded, each under
  -- its own key, those before `n` were failures to be tried again, and so is `n` only if it is the highest.
  -- No other row of the history changes. A delivered attempt ends the request. After any other, one
  -- transaction appends the request's dead letter to the log, whole on success and not at all on an error,
  -- unless the letter cannot be serialised, which is an error that leaves the log.
  pub deliver_with_retries-IsDelivery :
      (hook : WebhookRecord) (s : Delivering)
      → IsBroker a.broker
      → a.reads ≡ true
      → ((m : ℕ) → a.writes m ≡ applied)
      → hook_by_id request.webhook_id s.tables ≡ some hook
      → hook.active ≡ true
      → AreNew a request 1 s.tables.deliveries
      → IsDelivery 1 s (deliver_with_retries a request s)
  unfolding deliver_with_retries
  deliver_with_retries-IsDelivery hook s broker reads writes found active fresh =
      rw (begins hook s reads found active)
        (deliver_from-IsDelivery max_attempts 1 s refl (omega arith) broker writes fresh)

  -- If the webhook is there and active and the first attempt of the request is recorded already, then
  -- the worker stops with an error and leaves the rows and the log.
  pub deliver_with_retries_again :
      (hook : WebhookRecord) (row : DeliveryRecord) (s : Delivering)
      → a.reads ≡ true
      → hook_by_id request.webhook_id s.tables ≡ some hook
      → hook.active ≡ true
      → HashMap.get (attempt_key request 1) s.tables.deliveries ≡ some row
      → deliver_with_retries a request s ≡ returned (s, err store)
  unfolding deliver_with_retries deliver_from attempt_row
  deliver_with_retries_again hook row s reads found active there =
      rw (reads, deliver_with_retries, found, active)
        (rw (write_row_again (a.writes 1) (row_of a request 1) row s.tables there, deliver_from)
          refl)
