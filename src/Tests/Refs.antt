-- ===== src/Tests/Refs.antt =====
-- Pushes and merges at concrete inputs.
use crabforge.Prelude.{◌≡◌, ◌↔◌, refl, true, false, List, [], ◌∷◌, none, some, replicate}
use crabforge.Str.{codes}
use crabforge.Types.Oid.{Oid}
use crabforge.Command.Refs.{RefUpdate, is_valid_ref_name}
use crabforge.Command.Refs.Names.{IsRefName, is_valid_ref_name_iff}
use crabforge.Command.State.{Service}
use crabforge.Command.Service.{update_refs}
use crabforge.Command.Service.Push.{IsPush, update_refs-IsPush}
use crabforge.Command.Pulls.{MergePull, merge_pull}
use crabforge.Command.Pulls.Merge.{IsMerge, merge_pull-IsMerge}
use crabforge.Tests.Demo.{platform, platform-IsPlatform, broker-IsBroker, ambient}

abbrev zeros : Oid
zeros = replicate 20 0

abbrev ones : Oid
ones = replicate 20 1

-- `refs/heads/main` of repository 3 is at `zeros`.
abbrev one_branch : Service
one_branch = record {
  bus = record { fenced = false; log = [] };
  catalog = [];
  refs = (codes "000/refs/heads/main", zeros) ∷ [];
}

-- One move, and one branch made.
abbrev two_updates : List RefUpdate
two_updates =
    record { name = codes "refs/heads/main"; expected_old = some zeros; new = some ones }
    ∷ record { name = codes "refs/heads/topic"; expected_old = none; new = some zeros }
    ∷ []

update_refs-IsPush_example :
    IsPush platform one_branch 3 two_updates
      (update_refs platform (ambient 9) one_branch 3 two_updates 1)
update_refs-IsPush_example =
    update_refs-IsPush platform (ambient 9) one_branch 3 two_updates 1 platform-IsPlatform
      broker-IsBroker

abbrev to_main : MergePull
to_main = record {
  repo = 3;
  pr = 7;
  target_branch = codes "main";
  expected_base = zeros;
  expected_head = zeros;
  merge_commit = ones;
  merged_by = 1;
  merged_by_name = codes "Octocat";
}

merge_pull-IsMerge_example :
    IsMerge platform one_branch to_main (merge_pull platform (ambient 9) one_branch to_main)
merge_pull-IsMerge_example =
    merge_pull-IsMerge platform (ambient 9) one_branch to_main platform-IsPlatform broker-IsBroker

is_valid_ref_name_iff_example :
    (is_valid_ref_name (codes "refs/heads/main") ≡ true) ↔ IsRefName (codes "refs/heads/main")
is_valid_ref_name_iff_example = is_valid_ref_name_iff (codes "refs/heads/main")

-- A name that climbs out of `refs/` is refused.
climbs : is_valid_ref_name (codes "refs/../etc") ≡ false
unfolding is_valid_ref_name
climbs = refl
