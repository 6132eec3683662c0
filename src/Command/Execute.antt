-- ===== src/Command/Execute.antt =====
-- Every command as one value, and runs of the service: commands, and reboots after the process
-- ended.
pub mod Hydrated
pub mod Emits
pub mod Grows
pub mod Fails
pub mod Counts
pub mod Unique
pub mod History
use crabforge.Prelude.{ℕ, Bool, List, Result, ok, err}
use crabforge.Types.Oid.{Oid}
use crabforge.Bus.Writer.{PendingRecord, IsBroker, Run, returned, aborted}
use crabforge.Command.Refs.{RefUpdate, RefResult}
use crabforge.Command.Platform.{Platform}
use crabforge.Command.State.{CommandError, Outcome, Service, Ambient, start}
use crabforge.Command.Service.{
  RegisterUser, CreateRepo, OpenIssue, CommentOnIssue, register_user, create_repo, open_issue,
  comment_on_issue, set_issue_state, update_refs,
}
use crabforge.Command.Pulls.{
  OpenPull, ReviewPull, MergePull, RecordMergeability, open_pull, review_pull, record_mergeability,
  synchronize_pull, merge_pull, set_pull_state,
}

pub data Command : Type 0 where
  register : RegisterUser → Command
  create : CreateRepo → Command
  report : OpenIssue → Command
  discuss : CommentOnIssue → Command
  switch_issue : (repo_id issue_id actor : ℕ) (open_it : Bool) → Command
  push : (repo_id : ℕ) (updates : List RefUpdate) (pusher : ℕ) → Command
  propose : OpenPull → Command
  review : ReviewPull → Command
  try_merge : RecordMergeability → Command
  synchronize : (repo_id pr_id : ℕ) (head_oid base_oid : Oid) → Command
  merge : MergePull → Command
  switch_pull : (repo_id pr_id actor : ℕ) (open_it : Bool) → Command

pub data Reply : Type 0 where
  done : Outcome → Reply
  pushed : List RefResult → Reply

abbrev pub reply_with :
    {A : Type 0} → (A → Reply) → Result A CommandError → Result Reply CommandError
reply_with f (ok a) = ok (f a)
reply_with f (err e) = err e

abbrev pub relabel :
    {A : Type 0}
    → (A → Reply)
    → Run (Service × Result A CommandError)
    → Run (Service × Result Reply CommandError)
relabel f (returned (s, r)) = returned (s, reply_with f r)
relabel f (aborted log) = aborted log

unfoldable pub execute :
    Platform → Ambient → Service → Command → Run (Service × Result Reply CommandError)
execute p a s (register r) = relabel done (register_user p a s r)
execute p a s (create r) = relabel done (create_repo p a s r)
execute p a s (report r) = relabel done (open_issue p a s r)
execute p a s (discuss r) = relabel done (comment_on_issue p a s r)
execute p a s (switch_issue repo_id issue_id actor open_it) =
    relabel done (set_issue_state p a s repo_id issue_id actor open_it)
execute p a s (push repo_id updates pusher) =
    relabel pushed (update_refs p a s repo_id updates pusher)
execute p a s (propose r) = relabel done (open_pull p a s r)
execute p a s (review r) = relabel done (review_pull p a s r)
execute p a s (try_merge r) = relabel done (record_mergeability p a s r)
execute p a s (synchronize repo_id pr_id head_oid base_oid) =
    relabel done (synchronize_pull p a s repo_id pr_id head_oid base_oid)
execute p a s (merge r) = relabel done (merge_pull p a s r)
execute p a s (switch_pull repo_id pr_id actor open_it) =
    relabel done (set_pull_state p a s repo_id pr_id actor open_it)

-- The service after a call: its new state, or what a new process boots with from the log.
unfoldable pub after : {A : Type 0} → Platform → Run (Service × A) → Service
after p (returned (s, r)) = s
after p (aborted log) = start p log

-- A history of the service from a first boot on a log: commands one after the other, and restarts
-- at any time.
pub data Reach (p : Platform) (first : List PendingRecord) : Service → Type 0 where
  boot : Reach p first (start p first)
  command :
      {s : Service} (a : Ambient) (c : Command)
      → IsBroker a.broker
      → Reach p first s
      → Reach p first (after p (execute p a s c))
  restart : {s : Service} → Reach p first s → Reach p first (start p s.bus.log)
