-- ===== src/Tests/Command.antt =====
-- The command service at concrete inputs.
use crabforge.Prelude.{err, arith, ◌≡◌, ◌+◌, refl, inl, none, if◌then◌else◌, []}
use crabforge.Str.{codes}
use crabforge.Command.State.{start, Service, commit, pending, validated, non_blank}
use crabforge.Command.State.Replay.{IsHydrated}
use crabforge.Command.Service.{register_user, open_issue, commit_claim}
use crabforge.Command.State.{CommandError}
use crabforge.Bus.Writer.{returned, event_record, transact}
use crabforge.Types.Names.{reserved, parse_username}
use crabforge.HashMap
use crabforge.Types.Int.{pos}
use crabforge.Command.Catalog.{
  is_username_taken, user_key, is_claimed, next_issue_number, issue_counter_key,
}
use crabforge.Command.Execute.{Command, register, report, execute, after, Reach, boot, command}
use crabforge.Command.Execute.Counts.{claims_on}
use crabforge.Command.Execute.History.{Reach-claims_on, Reach-next_issue_number}
use crabforge.Command.Execute.Fails.{FailsClean, execute-FailsClean}
use crabforge.Command.Execute.Hydrated.{Reach-IsHydrated}
use crabforge.Tests.Demo.{
  platform, platform-IsPlatform, broker-IsBroker, ambient, lost_ambient, lost_broker-IsBroker,
}

abbrev sign_up : Command
sign_up =
    register (record { username = codes "Octocat"; email = codes "o@x"; password_hash = codes "h" })

Reach-IsHydrated_example :
    IsHydrated platform (after platform (execute platform (ambient 1) (start platform []) sign_up))
Reach-IsHydrated_example =
    Reach-IsHydrated platform [] platform-IsPlatform
      (command (ambient 1) sign_up broker-IsBroker boot)

abbrev ask : Command
ask = report (record {
  repo = 3;
  author = 1;
  author_name = codes "Octocat";
  title = codes " Bug ";
  body = none;
})

-- A registration, and an issue whose transaction's answer is lost after its records landed.
abbrev signed_up : Service
signed_up = after platform (execute platform (ambient 1) (start platform []) sign_up)

abbrev issue_reported : Service
issue_reported = after platform (execute platform lost_ambient signed_up ask)

reported-Reach : Reach platform [] issue_reported
reported-Reach =
    command lost_ambient ask lost_broker-IsBroker (command (ambient 1) sign_up broker-IsBroker boot)

Reach-claims_on_example :
    claims_on (user_key (codes "octocat")) issue_reported.bus.log
    ≡ (if is_claimed (user_key (codes "octocat")) issue_reported.catalog then 1 else 0)
Reach-claims_on_example =
    Reach-claims_on platform (user_key (codes "octocat")) platform-IsPlatform reported-Reach
      (inl (codes "octocat", refl))

reported-given : claims_on (issue_counter_key platform.wire.uuid_text 3) issue_reported.bus.log ≡ 1
unfolding claims_on issue_counter_key after execute register_user open_issue commit_claim commit
    start pending event_record transact is_username_taken next_issue_number validated non_blank
    parse_username crabforge.HashMap.contains_key
reported-given = refl

Reach-next_issue_number_example :
    next_issue_number platform.wire.uuid_text 3 issue_reported.catalog
    ≡ pos (1 + claims_on (issue_counter_key platform.wire.uuid_text 3) issue_reported.bus.log)
Reach-next_issue_number_example =
    Reach-next_issue_number platform 3 platform-IsPlatform reported-Reach
      (omega (arith, reported-given))

-- A name that is reserved.
abbrev sign_up_reserved : Command
sign_up_reserved =
    register (record { username = codes "Login"; email = codes "a@x"; password_hash = codes "h" })

execute-FailsClean_example :
    FailsClean signed_up (execute platform (ambient 3) signed_up sign_up_reserved)
execute-FailsClean_example =
    execute-FailsClean platform (ambient 3) signed_up broker-IsBroker sign_up_reserved

-- It is refused, with the reason.
sign_up_refused :
    execute platform (ambient 3) signed_up sign_up_reserved
    ≡ returned (signed_up, err (CommandError.invalid_name (reserved (codes "Login"))))
unfolding execute register_user parse_username
sign_up_refused = refl
