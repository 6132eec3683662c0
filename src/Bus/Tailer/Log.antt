-- ===== src/Bus/Tailer/Log.antt =====
-- A log by its offsets, and a broker that serves it.
use crabforge.Prelude.{
  ℕ, zero, suc, ◌≤◌, ◌<◌, ◌≡◌, refl, ap, ◌⊎◌, List, [], ◌∷◌, ◌++◌, Option, none, some, arith, ok,
}
use crabforge.Bus.Tailer.{FetchedRecord, FetchPartitionResult, Fetch, cursor_after}

-- What stands at each offset: a record, or an entry that a reader does not see (a control record, or
-- one of a transaction that was aborted).
abbrev pub Log : Type 0
Log = List (Option FetchedRecord)

-- The visible records from offset `a` to before `b`.
unfoldable pub between : ℕ → ℕ → Log → List FetchedRecord
between a b [] = []
between zero zero (x ∷ log) = []
between zero (suc b) (none ∷ log) = between zero b log
between zero (suc b) (some r ∷ log) = r ∷ between zero b log
between (suc a) zero (x ∷ log) = []
between (suc a) (suc b) (x ∷ log) = between a b log

pub between_empty : (a : ℕ) (log : Log) → between a a log ≡ []
unfolding between
between_empty a [] = refl
between_empty zero (x ∷ log) = refl
between_empty (suc a) (x ∷ log) = between_empty a log

pub between-append :
    (a b c : ℕ) (log : Log) → a ≤ b → b ≤ c → between a b log ++ between b c log ≡ between a c log
unfolding between
between-append a b c [] h k = refl
between-append zero zero c (x ∷ log) h k = refl
between-append zero (suc b) zero (x ∷ log) h k = absurd (omega arith)
between-append zero (suc b) (suc c) (none ∷ log) h k =
    between-append zero b c log (omega arith) (omega arith)
between-append zero (suc b) (suc c) (some r ∷ log) h k =
    ap (λ rs. r ∷ rs) (between-append zero b c log (omega arith) (omega arith))
between-append (suc a) zero c (x ∷ log) h k = absurd (omega arith)
between-append (suc a) (suc b) zero (x ∷ log) h k = absurd (omega arith)
between-append (suc a) (suc b) (suc c) (x ∷ log) h k =
    between-append a b c log (omega arith) (omega arith)

-- The documented answer to a fetch: the visible records up to where the cursor goes.
abbrev pub Serves : Log → Fetch → Type 0
Serves log fetch =
    (call offset : ℕ) (result : FetchPartitionResult)
    → fetch call offset ≡ ok result
    → result.records ≡ between offset (cursor_after result.next_offset offset) log

-- A broker that answers each fetch, moves on while there is something below `end`, and stays there.
abbrev pub IsLive : ℕ → Fetch → Type 0
IsLive end fetch =
    (call offset : ℕ)
    → offset ≤ end
    → (result : FetchPartitionResult) × (fetch call offset ≡ ok result)
      × (cursor_after result.next_offset offset ≤ end)
      × ((offset ≡ end) ⊎ (offset < cursor_after result.next_offset offset))
