-- ===== src/Bus/Writer/Laws.antt =====
-- Atomicity and fencing of a transaction.
use crabforge.Prelude.{
  ◌≡◌, refl, sym, ap, ◌∙◌, ◌⊎◌, ◌≢◌, inl, inr, Bool, true, false, List, [], ◌∷◌, ◌++◌, arith,
  Bool-cases, Option-cases, is_empty, Result, ok, err, append-nil,
}
use crabforge.Bus.Writer.{
  Bus, Broker, IsBroker, Run, returned, aborted, PendingRecord, Committed, WriteError,
  ProducerError, recovery_required, fenced_producer, transaction_aborted, closed, other, EndTxn,
  committed, failed, Stopped, send_failed, channel_closed, reject, producer, classify, collect,
  end_transaction, transact,
}

-- What one transaction may do: on success all records are appended; on an error none is, and a
-- writer that reports that it is fenced stays so; if the process ends, all are or none is.
abbrev pub IsAtomic : Bus → List PendingRecord → Run (Bus × Result Committed WriteError) → Type 0
IsAtomic s records (returned (s', ok c)) = (s'.log ≡ s.log ++ records) × (s'.fenced ≡ s.fenced)
IsAtomic s records (returned (s', err e)) =
    (s'.log ≡ s.log)
    × (s.fenced ≡ true → s'.fenced ≡ true)
    × (e ≡ WriteError.fenced → s'.fenced ≡ true)
IsAtomic s records (aborted log) = (log ≡ s.log) ⊎ (log ≡ s.log ++ records)

reject-IsAtomic :
    (s : Bus) (records : List PendingRecord) (e : ProducerError)
    → IsAtomic s records (reject (classify s e))
unfolding classify
reject-IsAtomic s records fenced_producer = ground arith
reject-IsAtomic s records recovery_required = inl refl
reject-IsAtomic s records _ = ground arith

reject_landed-IsAtomic :
    (s : Bus) (records : List PendingRecord)
    → IsAtomic s records (reject (classify (record s { log = s.log ++ records }) recovery_required))
unfolding classify
reject_landed-IsAtomic s records = inr refl

end_transaction-IsAtomic :
    (s : Bus) (end : EndTxn) (records : List PendingRecord) (c : Committed)
    → ((e : ProducerError) (landed : Bool)
        → end ≡ failed e landed
        → e ≢ recovery_required
        → landed ≡ false)
    → IsAtomic s records (end_transaction s end records c)
unfolding end_transaction
end_transaction-IsAtomic s committed records c h = (refl, refl)
end_transaction-IsAtomic s (failed e false) records c h = reject-IsAtomic s records e
end_transaction-IsAtomic s (failed recovery_required true) records c h =
    reject_landed-IsAtomic s records
end_transaction-IsAtomic s (failed fenced_producer true) records c h =
    absurd (let bad = h fenced_producer true refl (λ q. cc) in cc)
end_transaction-IsAtomic s (failed transaction_aborted true) records c h =
    absurd (let bad = h transaction_aborted true refl (λ q. cc) in cc)
end_transaction-IsAtomic s (failed closed true) records c h =
    absurd (let bad = h closed true refl (λ q. cc) in cc)
end_transaction-IsAtomic s (failed (other n) true) records c h =
    absurd (let bad = h (other n) true refl (λ q. cc) in cc)

-- A fenced writer writes nothing, whatever the broker would answer.
pub transact_fenced :
    (b : Broker) (s : Bus) (records : List PendingRecord)
    → s.fenced ≡ true
    → transact b s records ≡ returned (s, err WriteError.fenced)
unfolding transact
transact_fenced b s records h = rw h

collected-IsAtomic :
    (b : Broker) (s : Bus) (records : List PendingRecord)
    → IsBroker b
    → (r : Result Committed Stopped)
    → IsAtomic s records (elim r [
      | err (send_failed e) ↦ reject (classify s e)
      | err channel_closed ↦ returned (s, err (producer closed))
      | ok offsets ↦ end_transaction s b.commit records offsets
    ])
collected-IsAtomic b s records h (ok c) = end_transaction-IsAtomic s b.commit records c h
collected-IsAtomic b s records h (err (send_failed e)) = reject-IsAtomic s records e
collected-IsAtomic b s records h (err channel_closed) = ground arith

is_empty_nil : (records : List PendingRecord) → is_empty records ≡ true → records ≡ []
is_empty_nil [] h = refl
is_empty_nil (r ∷ rs) h = cc

-- On a broker that behaves as documented, a transaction that succeeds appends all of its records, and
-- one that answers with an error none; after an error a fenced writer is still fenced, and a writer
-- that reports that it is fenced is. If the process ends in it, all records landed or none.
pub transact-IsAtomic :
    (b : Broker) (s : Bus) (records : List PendingRecord)
    → IsBroker b
    → IsAtomic s records (transact b s records)
unfolding transact
transact-IsAtomic b s records h = elim (Bool-cases s.fenced) [
  | inl f ↦ simp f (refl, λ _. refl, λ _. refl)
  | inr f ↦ elim (Bool-cases (is_empty records)) [
    | inl e ↦
        simp (f, e) (sym (ap (λ l. s.log ++ l) (is_empty_nil records e) ∙ append-nil s.log), refl)
    | inr e ↦ elim (Option-cases b.begin) [
      | inl g ↦ simp (f, e, g) (collected-IsAtomic b s records h (collect b 0 records []))
      | inr (p, g) ↦ simp (f, e, g) (reject-IsAtomic s records p)
    ]
  ]
]
