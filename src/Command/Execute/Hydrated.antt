-- ===== src/Command/Execute/Hydrated.antt =====
-- The state that the service decides against is, at every moment of every history, the one that a
-- boot from the log would rebuild.
use crabforge.Prelude.{List, refl, Result}
use crabforge.Bus.Writer.{IsBroker, Run, returned, aborted, PendingRecord}
use crabforge.Command.Platform.{Platform, IsPlatform}
use crabforge.Command.State.{CommandError, Service, Ambient, start}
use crabforge.Command.State.Replay.{IsHydrated, StaysHydrated}
use crabforge.Command.Service.Hydrated.{
  register_user-StaysHydrated, create_repo-StaysHydrated, open_issue-StaysHydrated,
  comment_on_issue-StaysHydrated, set_issue_state-StaysHydrated, update_refs-StaysHydrated,
}
use crabforge.Command.Pulls.Hydrated.{
  open_pull-StaysHydrated, review_pull-StaysHydrated, record_mergeability-StaysHydrated,
  synchronize_pull-StaysHydrated, merge_pull-StaysHydrated, set_pull_state-StaysHydrated,
}
use crabforge.Command.Execute.{
  Command, register, create, report, discuss, switch_issue, push, propose, review, try_merge,
  synchronize, merge, switch_pull, Reply, relabel, execute, after, Reach, boot, command, restart,
}

relabel-StaysHydrated :
    {A : Type 0} (p : Platform) (f : A → Reply) (r : Run (Service × Result A CommandError))
    → StaysHydrated p r
    → StaysHydrated p (relabel f r)
relabel-StaysHydrated p f (returned (s, reply)) h = h
relabel-StaysHydrated p f (aborted log) h = tt

-- Whatever a command is asked and whatever the broker answers, a service that agrees with its log
-- agrees with it when the command returns.
pub execute-StaysHydrated :
    (p : Platform) (a : Ambient) (s : Service) (c : Command)
    → IsPlatform p
    → IsBroker a.broker
    → IsHydrated p s
    → StaysHydrated p (execute p a s c)
unfolding execute
execute-StaysHydrated p a s (register r) good b h =
    relabel-StaysHydrated p _ _ (register_user-StaysHydrated p a s b h r)
execute-StaysHydrated p a s (create r) good b h =
    relabel-StaysHydrated p _ _ (create_repo-StaysHydrated p a s b h r)
execute-StaysHydrated p a s (report r) good b h =
    relabel-StaysHydrated p _ _ (open_issue-StaysHydrated p a s b h r)
execute-StaysHydrated p a s (discuss r) good b h =
    relabel-StaysHydrated p _ _ (comment_on_issue-StaysHydrated p a s b h r)
execute-StaysHydrated p a s (switch_issue repo_id issue_id actor open_it) good b h =
    relabel-StaysHydrated p _ _
      (set_issue_state-StaysHydrated p a s b h repo_id issue_id actor open_it)
execute-StaysHydrated p a s (push repo_id updates pusher) good b h =
    relabel-StaysHydrated p _ _ (update_refs-StaysHydrated p a s b h repo_id updates pusher good)
execute-StaysHydrated p a s (propose r) good b h =
    relabel-StaysHydrated p _ _ (open_pull-StaysHydrated p a s b h r)
execute-StaysHydrated p a s (review r) good b h =
    relabel-StaysHydrated p _ _ (review_pull-StaysHydrated p a s b h r)
execute-StaysHydrated p a s (try_merge r) good b h =
    relabel-StaysHydrated p _ _ (record_mergeability-StaysHydrated p a s b h r)
execute-StaysHydrated p a s (synchronize repo_id pr_id head_oid base_oid) good b h =
    relabel-StaysHydrated p _ _
      (synchronize_pull-StaysHydrated p a s b h repo_id pr_id head_oid base_oid)
execute-StaysHydrated p a s (merge r) good b h =
    relabel-StaysHydrated p _ _ (merge_pull-StaysHydrated p a s b h r good)
execute-StaysHydrated p a s (switch_pull repo_id pr_id actor open_it) good b h =
    relabel-StaysHydrated p _ _ (set_pull_state-StaysHydrated p a s b h repo_id pr_id actor open_it)

start-IsHydrated : (p : Platform) (log : List PendingRecord) → IsHydrated p (start p log)
unfolding start
start-IsHydrated p log = record { claims = refl; references = refl }

after-IsHydrated :
    {A : Type 0} (p : Platform) (r : Run (Service × A))
    → StaysHydrated p r
    → IsHydrated p (after p r)
unfolding after
after-IsHydrated p (returned (s, reply)) h = h
after-IsHydrated p (aborted log) h = start-IsHydrated p log

-- On a platform that behaves as documented, through any history of commands, aborted processes and
-- restarts, from any log, the catalog and the references in memory are those that a boot from the
-- log would rebuild.
pub Reach-IsHydrated :
    (p : Platform) (first : List PendingRecord) {s : Service}
    → IsPlatform p
    → Reach p first s
    → IsHydrated p s
Reach-IsHydrated p first good boot = start-IsHydrated p first
Reach-IsHydrated p first good (command {s} a c b before) =
    after-IsHydrated p (execute p a s c)
      (execute-StaysHydrated p a s c good b (Reach-IsHydrated p first good before))
Reach-IsHydrated p first good (restart {s} before) = start-IsHydrated p s.bus.log
