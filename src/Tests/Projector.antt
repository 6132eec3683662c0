-- ===== src/Tests/Projector.antt =====
-- The projector at concrete inputs.
use Prim.Native.Nat.{max}
use crabforge.Prelude.{
  ltb→lt, sym, if◌then◌else◌, ltb, ℕ, zero, suc, ◌+◌, ◌≡◌, refl, inl, inr, true, [], ◌∷◌, Option,
  none, some, arith, ◌==◌, Bool-cases, ok,
}
use crabforge.Str.{codes}
use crabforge.Types.Topics
use crabforge.Events.{UserEvent, registered, deactivated}
use crabforge.Bus.Writer.{Bytes}
use crabforge.Bus.Tailer.{FetchedRecord, Fetch, FetchPartitionResult, open_at, replay_to_end}
use crabforge.Bus.Tailer.Log.{Log, between, Serves, IsLive}
use crabforge.Bus.Tailer.Replay.{IsReplay, replay_to_end_lem}
use crabforge.Store.{Store}
use crabforge.Projector.Apply.{Decoders, apply_decoded}
use crabforge.Projector.Drain.{
  applied_offset, Db, Projector, Session, World, committed, lost, open_projector, pass, drain,
}
use crabforge.Projector.Drain.Durable.{IsExact, open_projector-IsExact}
use crabforge.Projector.Drain.Live.{IsCaughtUp, drain_catches_up}
use crabforge.Projector.Drain.Lives.{Reached, opened, passed, ended_in_pass, Reached-IsExact}
use crabforge.Projector.Twice.Records.{apply_decoded_twice}

abbrev decode_user : Bytes → Option (UserEvent × ℕ)
decode_user (suc zero ∷ []) =
    some (registered 7 (codes "Ann") (codes "ann") (codes "a@b") (codes "x"), 10)
decode_user (suc (suc zero) ∷ []) = some (deactivated 7, 20)
decode_user _ = none

abbrev decoders : Decoders
decoders = record {
  uuid_text = λ n. n ∷ [];
  users = decode_user;
  issues = λ b. none;
  pulls = λ b. none;
  ci = λ b. none;
  repos = λ b. none;
}

-- A registration, a control record, a value that cannot be read, and a deactivation.
abbrev user_log : Log
user_log =
    some (record { offset = 0; value = some (1 ∷ []) })
    ∷ none
    ∷ some (record { offset = 2; value = some (9 ∷ []) })
    ∷ some (record { offset = 3; value = some (2 ∷ []) })
    ∷ []

-- A broker that answers with one record's stretch at a time.
abbrev step_fetch : Fetch
step_fetch call offset =
    let next = if ltb offset 4 then offset + 1 else offset in
    ok (record { records = between offset (max next offset) user_log; next_offset = some next })

step_fetch-Serves : Serves user_log step_fetch
step_fetch-Serves call offset result h =
    let next = if ltb offset 4 then offset + 1 else offset in
    let made : FetchPartitionResult = record {
      records = between offset (max next offset) user_log;
      next_offset = some next;
    } in
    let eq : made ≡ result = cc in rw (sym eq) refl

step_fetch-IsLive : IsLive 4 step_fetch
step_fetch-IsLive call offset h = elim (Bool-cases (ltb offset 4)) [
  | inl e ↦ (
    record {
      records = between offset (max (offset + 1) offset) user_log;
      next_offset = some (offset + 1);
    },
    rw e refl,
    omega (arith, ltb→lt offset 4 e),
    inr (omega arith),
  )
  | inr e ↦ (
    record { records = between offset (max offset offset) user_log; next_offset = some offset },
    rw e refl,
    omega arith,
    inl (ground arith),
  )
]

abbrev empty_store : Store
empty_store = record {
  users = [];
  repos = [];
  issues = record { rows = []; comments = []; counters = [] };
  pulls = record { rows = []; reviews = [] };
  ci = record { runs = []; jobs = [] };
}

abbrev empty_db : Db
empty_db = record { rows = empty_store; cursors = [] }

abbrev answered : Session
answered = record { begins = true; applies = λ r. true; moves = true; commit = committed }

-- Its transaction number 2 is not committed.
abbrev flaky_session : ℕ → Session
flaky_session n = if n == 2 then record answered { commit = lost } else answered

abbrev flaky_world : World
flaky_world = record { fetch = step_fetch; session = flaky_session }

abbrev world : World
world = record { fetch = step_fetch; session = λ n. answered }

replay_to_end_lem_example :
    IsReplay
      (λ (n : ℕ) r. n + r.offset)
      0
      0
      (between 0 4 user_log)
      4
      (replay_to_end step_fetch (λ (n : ℕ) r. n + r.offset) 9 0 0 (open_at 0) 0)
unfolding open_at
replay_to_end_lem_example =
    replay_to_end_lem step_fetch (λ (n : ℕ) r. n + r.offset) user_log 4 9 0 0 (open_at 0) 0
      step_fetch-Serves step_fetch-IsLive (omega arith) (omega arith)

three_seen :
    (replay_to_end step_fetch (λ (n : ℕ) r. n + r.offset) 9 0 0 (open_at 0) 0).count ≡ some (ok 3)
unfolding replay_to_end open_at between
three_seen = refl

apply_decoded_twice_example :
    let r : FetchedRecord = record { offset = 0; value = some (1 ∷ []) } in
    apply_decoded decoders Topics.events_users r
      (apply_decoded decoders Topics.events_users r empty_store).0
    ≡ apply_decoded decoders Topics.events_users r empty_store
apply_decoded_twice_example =
    apply_decoded_twice decoders Topics.events_users (record { offset = 0; value = some (1 ∷ []) })
      empty_store

abbrev passed_over : ℕ → Projector → Projector
passed_over call p = (pass decoders Topics.events_users flaky_world call p).0

abbrev first_opened : Projector
first_opened = open_projector Topics.events_users empty_db

-- Two passes land, the third is lost, and the process is started again.
abbrev restarted : Projector
restarted =
    open_projector Topics.events_users
      (passed_over 2 (passed_over 1 (passed_over 0 first_opened))).db

reached : Reached decoders Topics.events_users flaky_world empty_db restarted
unfolding pass open_projector between
reached = ended_in_pass 2 (passed 1 (passed 0 opened refl) refl)

Reached-IsExact_example : IsExact decoders Topics.events_users user_log empty_store restarted
unfolding applied_offset
Reached-IsExact_example =
    Reached-IsExact decoders Topics.events_users flaky_world user_log empty_db step_fetch-Serves
      refl reached

start-IsExact : IsExact decoders Topics.events_users user_log empty_store first_opened
unfolding applied_offset between
start-IsExact =
    open_projector-IsExact decoders Topics.events_users user_log empty_store empty_db refl

drain_catches_up_example :
    IsCaughtUp decoders Topics.events_users user_log empty_store 4
      (drain decoders Topics.events_users world 9 0 0 first_opened)
unfolding open_projector open_at applied_offset
drain_catches_up_example =
    drain_catches_up decoders Topics.events_users user_log empty_store world 4 9 0 0 first_opened
      step_fetch-Serves step_fetch-IsLive (λ call. (refl, λ r. refl, refl, refl)) start-IsExact
      (omega arith) (omega arith)
