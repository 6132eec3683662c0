-- ===== src/Command/Execute/History.antt =====
-- Through any history from an empty log: one claim for each name, and consecutive issue numbers.
use crabforge.Prelude.{
  ℕ, ◌+◌, ◌<◌, ◌≡◌, refl, sym, ap, ◌∙◌, inl, inr, List, [], Option-cases, if◌then◌else◌,
  Option-cases,
}
use crabforge.Str.{Text}
use crabforge.HashMap
use crabforge.Types.Int.{pos, i64_top}
use crabforge.Bus.Writer.{PendingRecord, Run, returned, aborted}
use crabforge.Command.Catalog.{Catalog, is_claimed, issue_counter_key, next_issue_number}
use crabforge.Command.Platform.{Platform, IsPlatform}
use crabforge.Command.State.{Service, start}
use crabforge.Command.State.Replay.{IsHydrated}
use crabforge.Command.Execute.{Reach, boot, command, restart, after, execute}
use crabforge.Command.Execute.Hydrated.{Reach-IsHydrated}
use crabforge.Command.Execute.Emits.{Grows, log_after}
use crabforge.Command.Execute.Grows.{execute-Grows}
use crabforge.Command.Execute.Counts.{
  claims_on, catalog_of, present, IsNameKey, IsCounted, nil-IsCounted,
}
use crabforge.Command.Execute.Unique.{Emits-IsCounted}

start-log : (p : Platform) (log : List PendingRecord) → (start p log).bus.log ≡ log
unfolding start
start-log p log = refl

after-log : {A : Type 0} (p : Platform) (r : Run (Service × A)) → (after p r).bus.log ≡ log_after r
unfolding after
after-log p (returned (s, x)) = refl
after-log p (aborted log) = start-log p log

Grows-IsCounted :
    (p : Platform) (s : Service) (log : List PendingRecord)
    → IsPlatform p
    → IsHydrated p s
    → IsCounted p s.bus.log
    → Grows p s log
    → IsCounted p log
Grows-IsCounted p s log good h counted (inl same) = rw same counted
Grows-IsCounted p s log good h counted (inr (rs, emits, grown)) =
    rw grown (Emits-IsCounted p s.bus.log good counted rs (rw (← h.claims) emits))

Reach-IsCounted :
    (p : Platform) (first : List PendingRecord) {s : Service}
    → IsPlatform p
    → IsCounted p first
    → Reach p first s
    → IsCounted p s.bus.log
Reach-IsCounted p first good h boot = rw (start-log p first) h
Reach-IsCounted p first good h (command {s} a c b before) = rw (after-log p (execute p a s c)) (
    Grows-IsCounted p s (log_after (execute p a s c)) good (Reach-IsHydrated p first good before)
      (Reach-IsCounted p first good h before) (execute-Grows p a s b c))
Reach-IsCounted p first good h (restart {s} before) =
    rw (start-log p s.bus.log) (Reach-IsCounted p first good h before)

present-is_claimed :
    (k : Text) (c : Catalog) → present (HashMap.get k c) ≡ (if is_claimed k c then 1 else 0)
unfolding is_claimed HashMap.contains_key
present-is_claimed k c = elim (Option-cases (HashMap.get k c)) [
  | inl e ↦ rw (e, present, is_claimed, HashMap.contains_key) refl
  | inr (claim, e) ↦ rw (e, present, is_claimed, HashMap.contains_key) refl
]

-- On a platform that behaves as documented, after any history of commands, failed or indeterminate
-- transactions and restarts from an empty log, the log holds exactly one claim record for a user or
-- repository name that the service takes for claimed, and none for any other name.
pub Reach-claims_on :
    (p : Platform) {s : Service} (k : Text)
    → IsPlatform p
    → Reach p [] s
    → IsNameKey k
    → claims_on k s.bus.log ≡ (if is_claimed k s.catalog then 1 else 0)
Reach-claims_on p {s} k good reach named =
    (Reach-IsCounted p [] good (nil-IsCounted p) reach).names k named
    ∙ (present-is_claimed k (catalog_of p s.bus.log)
        ∙ ap (λ c. if is_claimed k c then 1 else 0) (sym (Reach-IsHydrated p [] good reach).claims))

-- On a platform that behaves as documented, after any history from an empty log, while fewer than
-- 2^63 - 1 numbers of a repository are given out, its next number is one more than the count of
-- records in the log that give one out: issues and pull requests share the numbers 1, 2, 3 and so on.
pub Reach-next_issue_number :
    (p : Platform) {s : Service} (repo_id : ℕ)
    → IsPlatform p
    → Reach p [] s
    → let given = claims_on (issue_counter_key p.wire.uuid_text repo_id) s.bus.log in
      given < i64_top → next_issue_number p.wire.uuid_text repo_id s.catalog ≡ pos (1 + given)
Reach-next_issue_number p {s} repo_id good reach bound =
    ap (next_issue_number p.wire.uuid_text repo_id) (Reach-IsHydrated p [] good reach).claims
    ∙ (Reach-IsCounted p [] good (nil-IsCounted p) reach).numbers repo_id bound
