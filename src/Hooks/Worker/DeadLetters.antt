-- ===== src/Hooks/Worker/DeadLetters.antt =====
-- How a request ends, and its dead letter.
use crabforge.Prelude.{
  ◌≡◌, refl, inl, inr, none, some, ◌⊎◌, List, [], ◌∷◌, ◌++◌, Option-cases, Result, ok, err,
}
use crabforge.Bus.Writer.{
  Run, returned, aborted, Bus, WriteError, Committed, PendingRecord, IsBroker, state_record,
  transact,
}
use crabforge.Bus.Writer.Laws.{IsAtomic, transact-IsAtomic}
use crabforge.Str.{Text, codes}
use crabforge.Hooks.Delivery.{DeliveryOutcome, delivered, retry, permanent}
use crabforge.Hooks.Worker.{
  DeliveryRequest, Answers, WorkerError, write, after_dead, Delivering, Done, dead_letter,
}

module _ (a : Answers) (request : DeliveryRequest) where
  -- How the loop ends after an attempt that is not tried again.
  abbrev pub conclude_with :
      DeliveryOutcome → Delivering → Run (Delivering × Result Done WorkerError)
  conclude_with (delivered _ _) s = returned (s, ok tt)
  conclude_with (permanent reason _) s = dead_letter a request reason s
  conclude_with (retry reason _) s = dead_letter a request reason s

  -- Parking these records in the log: all of them on success, none on an error, and all or none if the
  -- process ends; the rows stay.
  abbrev pub IsParking :
      Delivering → List PendingRecord → Run (Delivering × Result Done WorkerError) → Type 0
  IsParking s records (returned (s', ok done)) =
      (s'.tables ≡ s.tables) × (s'.bus.log ≡ s.bus.log ++ records)
  IsParking s records (returned (s', err e)) = (s'.tables ≡ s.tables) × (s'.bus.log ≡ s.bus.log)
  IsParking s records (aborted log) = (log ≡ s.bus.log) ⊎ (log ≡ s.bus.log ++ records)

  -- The dead letter of the request goes to the log in one transaction, unless it cannot be serialised.
  abbrev pub IsDeadLetter : Text → Delivering → Run (Delivering × Result Done WorkerError) → Type 0
  IsDeadLetter reason s run = elim (a.encode_dead request reason) [
    | none ↦ run ≡ returned (s, err (write WriteError.encode))
    | some bytes ↦
        let records = state_record (codes "forge.webhooks.dlq") request.webhook_id bytes ∷ [] in
        IsParking s records run × (run ≡ after_dead s (transact a.broker s.bus records))
  ]

  -- How the loop may end after an attempt that is not tried again.
  abbrev pub IsConclusion :
      DeliveryOutcome → Delivering → Run (Delivering × Result Done WorkerError) → Type 0
  IsConclusion (delivered _ _) s run = run ≡ returned (s, ok tt)
  IsConclusion (permanent reason _) s run = IsDeadLetter reason s run
  IsConclusion (retry reason _) s run = IsDeadLetter reason s run

  after_dead-IsParking :
      (s : Delivering) (records : List PendingRecord)
      (run : Run (Bus × Result Committed WriteError))
      → IsAtomic s.bus records run
      → IsParking s records (after_dead s run)
  after_dead-IsParking s records (returned (b, ok c)) h = (refl, h.0)
  after_dead-IsParking s records (returned (b, err e)) h = (refl, h.0)
  after_dead-IsParking s records (aborted log) h = h

  dead_letter-IsDeadLetter :
      (reason : Text) (s : Delivering)
      → IsBroker a.broker
      → IsDeadLetter reason s (dead_letter a request reason s)
  unfolding dead_letter
  dead_letter-IsDeadLetter reason s broker = elim (Option-cases (a.encode_dead request reason)) [
    | inl e ↦ rw (e, IsDeadLetter) (rw (e, dead_letter) refl)
    | inr (bytes, e) ↦
        let records = state_record (codes "forge.webhooks.dlq") request.webhook_id bytes ∷ [] in
        rw (e, IsDeadLetter)
          (rw (e, dead_letter)
            (
              after_dead-IsParking s records (transact a.broker s.bus records)
                  (transact-IsAtomic a.broker s.bus records broker),
              refl,
            ))
  ]

  pub conclude_with-IsConclusion :
      (outcome : DeliveryOutcome) (s : Delivering)
      → IsBroker a.broker
      → IsConclusion outcome s (conclude_with outcome s)
  conclude_with-IsConclusion (delivered _ _) s broker = refl
  conclude_with-IsConclusion (permanent reason _) s broker =
      dead_letter-IsDeadLetter reason s broker
  conclude_with-IsConclusion (retry reason _) s broker = dead_letter-IsDeadLetter reason s broker
