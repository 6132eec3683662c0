-- ===== src/Bus/Tailer/Replay.antt =====
-- What one fetch yields, and what a replay to the end yields.
use mathlib.Core.List.{foldl, foldl-append}
use crabforge.Prelude.{
  ℕ, zero, suc, ◌+◌, ◌≤◌, ◌<◌, ◌≡◌, refl, sym, ap, ◌∙◌, inl, inr, Bool, true, false, ◌&&◌, List, [],
  ◌∷◌, ◌++◌, Option, none, some, length, arith, ◌==◌, Bool-cases, ok, err, is_empty, length-append,
}
use crabforge.Types.Int.{minus_one}
use crabforge.Bus.Tailer.{
  FetchedRecord, FetchPartitionResult, Fetch, TailError, Tailer, Batch, Replayed, cursor_after,
  next_batch, mark_applied, replay_to_end,
}
use crabforge.Bus.Tailer.Log.{Log, between, between_empty, between-append, Serves, IsLive}

-- The batch of the records from `a` to before `b`.
abbrev pub batch_of : ℕ → ℕ → Log → Batch
batch_of a b log = record {
  records = between a b log;
  next_offset = b;
  caught_up = is_empty (between a b log) && (b == a);
}

abbrev pub seek : ℕ → Tailer → Tailer
seek offset t = record t { offset = offset }

pub cursor_after_le : (next : Option ℕ) (offset : ℕ) → offset ≤ cursor_after next offset
cursor_after_le none offset = omega arith
cursor_after_le (some n) offset = omega arith

-- A fetch that succeeds yields what stands between the cursor and where it goes.
pub next_batch_ok :
    (log : Log) (fetch : Fetch) (call : ℕ) (t : Tailer) (result : FetchPartitionResult)
    → Serves log fetch
    → fetch call t.offset ≡ ok result
    → let next = cursor_after result.next_offset t.offset in
      next_batch (fetch call) t ≡ ok (seek next t, batch_of t.offset next log)
unfolding next_batch
next_batch_ok log fetch call t result serves e =
    let rs = serves call t.offset result e in rw (e, next_batch) (rw rs refl)

pub next_batch_err :
    (fetch : Fetch) (call : ℕ) (t : Tailer) (error : TailError)
    → fetch call t.offset ≡ err error
    → next_batch (fetch call) t ≡ err error
unfolding next_batch
next_batch_err fetch call t error e = rw (e, next_batch) refl

-- What a replay from `a` to `end` must return.
abbrev pub IsReplay :
    {S : Type 0} → (S → FetchedRecord → S) → ℕ → S → List FetchedRecord → ℕ → Replayed S → Type 0
IsReplay apply count s records end r =
    (r.count ≡ some (ok (count + length records)))
    × (r.state ≡ foldl apply s records)
    × (r.tailer.offset ≡ end)

pub and_both : (a b : Bool) → a ≡ true → b ≡ true → a && b ≡ true
and_both a b h k = ground arith

pub and_right : (a b : Bool) → b ≡ false → a && b ≡ false
and_right a b h = ground arith

pub nil_of_empty : (rs : List FetchedRecord) → is_empty rs ≡ true → rs ≡ []
nil_of_empty [] h = refl
nil_of_empty (r ∷ rs) h = cc

module _ {S : Type 0} (fetch : Fetch) (apply : S → FetchedRecord → S) where
  replay_caught_up :
      (fuel call count : ℕ) (t t' : Tailer) (batch : Batch) (s : S)
      → next_batch (fetch call) t ≡ ok (t', batch)
      → is_empty batch.records ≡ true
      → batch.caught_up ≡ true
      → replay_to_end fetch apply (suc fuel) call count t s
        ≡ record { tailer = t'; state = s; count = some (ok count) }
  unfolding replay_to_end
  replay_caught_up fuel call count t t' batch s e h k = rw (e, replay_to_end) (rw (h, k) refl)

  replay_hidden :
      (fuel call count : ℕ) (t t' : Tailer) (batch : Batch) (s : S)
      → next_batch (fetch call) t ≡ ok (t', batch)
      → is_empty batch.records ≡ true
      → batch.caught_up ≡ false
      → replay_to_end fetch apply (suc fuel) call count t s
        ≡ replay_to_end fetch apply fuel (suc call) count t' s
  unfolding replay_to_end
  replay_hidden fuel call count t t' batch s e h k = rw (e, replay_to_end) (rw (h, k) refl)

  replay_records :
      (fuel call count : ℕ) (t t' : Tailer) (batch : Batch) (s : S)
      → next_batch (fetch call) t ≡ ok (t', batch)
      → is_empty batch.records ≡ false
      → replay_to_end fetch apply (suc fuel) call count t s
        ≡ replay_to_end fetch apply fuel
            (suc call)
            (count + length batch.records)
            (mark_applied (minus_one batch.next_offset) t')
            (foldl apply s batch.records)
  unfolding replay_to_end
  replay_records fuel call count t t' batch s e h = rw (e, replay_to_end) (rw h refl)

  replay_to_end_last :
      (log : Log) (end fuel call count next : ℕ) (t : Tailer) (s : S)
      → next_batch (fetch call) t ≡ ok (seek next t, batch_of t.offset next log)
      → t.offset ≡ end
      → next ≡ end
      → IsReplay apply count s
          (between t.offset end log)
          end
          (replay_to_end fetch apply (suc fuel) call count t s)
  replay_to_end_last log end fuel call count next t s e here there =
      let empty : between t.offset end log ≡ [] = rw here (between_empty end log) in
      let none_seen : is_empty (between t.offset next log) ≡ true = rw there (rw empty refl) in
      let caught : (is_empty (between t.offset next log) && (next == t.offset)) ≡ true =
        and_both _ _ none_seen (ground arith) in
      rw
        (replay_caught_up fuel call count t (seek next t) (batch_of t.offset next log) s e none_seen
          caught)
        (rw empty (ap (λ n. some (ok n)) (omega arith), refl, there))

  append-IsReplay :
      (count : ℕ) (s : S) (before after : List FetchedRecord) (end : ℕ) (r : Replayed S)
      → IsReplay apply (count + length before) (foldl apply s before) after end r
      → IsReplay apply count s (before ++ after) end r
  append-IsReplay count s before after end r (h, k, l) =
      let sum : count + length before + length after ≡ count + length (before ++ after) =
        omega (arith, length-append before after) in
      (h ∙ ap (λ n. some (ok n)) sum, k ∙ sym (foldl-append apply s before after), l)

  -- From any cursor up to `end`, on a broker that serves `log` and is live up to `end`, a replay with
  -- more fuel than there are offsets left returns: it has folded `apply` over all visible records up
  -- to `end`, has counted them, and its cursor is at `end`.
  pub replay_to_end_lem :
      (log : Log) (end fuel call count : ℕ) (t : Tailer) (s : S)
      → Serves log fetch
      → IsLive end fetch
      → t.offset ≤ end
      → end < t.offset + fuel
      → IsReplay apply count s
          (between t.offset end log)
          end
          (replay_to_end fetch apply fuel call count t s)
  unfolding mark_applied
  replay_to_end_lem log end zero call count t s serves live h k = absurd (omega arith)
  replay_to_end_lem log end (suc fuel) call count t s serves live h k =
      let (result, e, bound, progress) = live call t.offset h in
      let next = cursor_after result.next_offset t.offset in
      let e' = next_batch_ok log fetch call t result serves e in
      elim progress [
        | inl at_end ↦
            replay_to_end_last log end fuel call count next t s e' at_end
              (omega (arith, cursor_after_le result.next_offset t.offset))
        | inr moved ↦
            rw (sym (between-append t.offset next end log (omega arith) bound))
              (elim (Bool-cases (is_empty (between t.offset next log))) [
                | inl hidden ↦
                    let nothing = nil_of_empty (between t.offset next log) hidden in
                    rw
                      (replay_hidden fuel call count t (seek next t) (batch_of t.offset next log) s
                        e' hidden
                        (and_right (is_empty (between t.offset next log)) (next == t.offset)
                          (ground arith)))
                      (rw nothing (
                        replay_to_end_lem log end fuel (suc call) count (seek next t) s serves live
                          bound (omega arith)))
                | inr seen ↦
                    let rs = between t.offset next log in
                    let rest =
                      replay_to_end fetch apply fuel (suc call) (count + length rs)
                        (mark_applied (minus_one next) (seek next t)) (foldl apply s rs) in
                    rw
                      (replay_records fuel call count t (seek next t) (batch_of t.offset next log) s
                        e' seen)
                      (append-IsReplay count s rs (between next end log) end rest (
                        replay_to_end_lem log end fuel (suc call) _
                          (mark_applied (minus_one next) (seek next t)) _ serves live bound
                          (omega arith)))
              ])
      ]
