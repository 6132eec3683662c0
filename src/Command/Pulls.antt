-- ===== src/Command/Pulls.antt =====
-- crates/forge-command/src/pulls.rs: the commands on pull requests.
pub mod Hydrated
pub mod Merge
use crabforge.Prelude.{
  ℕ, Bool, true, false, not, List, [], ◌∷◌, ◌++◌, Option, none, some, if◌then◌else◌, Result, ok,
  err,
}
use crabforge.Str.{Text, codes, text_eq}
use crabforge.Types.Oid.{Oid, to_hex}
use crabforge.Types.Int.{succ_i64}
use crabforge.Types.Topics
use crabforge.Events.{
  DomainEvent, pr, git_ref, PrEvent, ReviewVerdict, synchronized, mergeability_computed, reviewed,
  merged, ref_updated,
}
use crabforge.Bus.Writer.{Run, returned, state_record}
use crabforge.Command.Catalog.{issue_counter, issue_counter_key, next_issue_number}
use crabforge.Command.Refs.{RefMap, ref_key, get_ref, set_ref, same_oid}
use crabforge.Command.Platform.{Platform}
use crabforge.Command.State.{
  CommandError, bad_request, stale_merge, Outcome, Service, Ambient, validated, non_blank,
  max_title, pending, with_event, commit,
}
use crabforge.Command.Service.{commit_claim, commit_event}

pub record OpenPull : Type 0 where
  pub repo : ℕ
  pub author : ℕ
  pub author_name : Text
  pub title : Text
  pub body : Option Text
  pub source_branch : Text
  pub target_branch : Text
  pub head_oid : Oid
  pub base_oid : Oid

pub record ReviewPull : Type 0 where
  pub repo : ℕ
  pub pr : ℕ
  pub reviewer : ℕ
  pub reviewer_name : Text
  pub verdict : ReviewVerdict
  pub body : Option Text

pub record MergePull : Type 0 where
  pub repo : ℕ
  pub pr : ℕ
  pub target_branch : Text
  pub expected_base : Oid
  pub expected_head : Oid
  pub merge_commit : Oid
  pub merged_by : ℕ
  pub merged_by_name : Text

pub record RecordMergeability : Type 0 where
  pub repo : ℕ
  pub pr : ℕ
  pub head_oid : Oid
  pub base_oid : Oid
  pub mergeable : Bool
  pub conflicts : List Text

unfoldable pub open_pull :
    Platform → Ambient → Service → OpenPull → Run (Service × Result Outcome CommandError)
open_pull p a s request = elim (validated request.title (codes "title") max_title) [
  | err e ↦ returned (s, err e)
  | ok title ↦
      if text_eq request.source_branch request.target_branch
      then returned (s, err (bad_request (codes "a branch cannot be merged into itself")))
      else let number = next_issue_number p.wire.uuid_text request.repo s.catalog in
        commit_claim p a s
          (pr (
            PrEvent.opened a.id request.repo number title (non_blank request.body) request.author
              request.author_name request.source_branch request.target_branch request.head_oid
              request.base_oid))
          request.author (issue_counter_key p.wire.uuid_text request.repo)
          (issue_counter (succ_i64 number))
]

unfoldable pub review_pull :
    Platform → Ambient → Service → ReviewPull → Run (Service × Result Outcome CommandError)
review_pull p a s request =
    commit_event p a s
      (pr (
        reviewed a.id request.pr request.repo request.reviewer request.reviewer_name request.verdict
          (non_blank request.body)))
      (some request.reviewer) a.id

unfoldable pub record_mergeability :
    Platform → Ambient → Service → RecordMergeability → Run (Service × Result Outcome CommandError)
record_mergeability p a s request =
    commit_event p a s
      (pr (
        mergeability_computed request.pr request.repo request.head_oid request.base_oid
          request.mergeable request.conflicts))
      none request.pr

unfoldable pub synchronize_pull :
    Platform
    → Ambient
    → Service
    → (repo_id pr_id : ℕ) (head_oid base_oid : Oid) → Run (Service × Result Outcome CommandError)
synchronize_pull p a s repo_id pr_id head_oid base_oid =
    commit_event p a s (pr (synchronized pr_id repo_id head_oid base_oid)) none pr_id

abbrev pub target_ref : Text → Text
target_ref branch = codes "refs/heads/" ++ branch

abbrev pub hex_option : Option Oid → Option Text
hex_option none = none
hex_option (some oid) = some (to_hex oid)

-- The two events of a merge and the record that moves the branch.
unfoldable pub commit_merge :
    Platform → Ambient → Service → MergePull → Text → Run (Service × Result Outcome CommandError)
commit_merge p a s request target =
    commit a s
      (with_event
        (pending p a 0
          (pr (
            merged request.pr request.repo request.merge_commit request.merged_by
              request.merged_by_name))
          (some request.merged_by))
        (with_event
          (pending p a 1
            (git_ref (
              ref_updated request.repo target (some request.expected_base)
                (some request.merge_commit) request.merged_by false))
            (some request.merged_by))
          (ok (
            state_record Topics.git_refs (ref_key p.wire.uuid_text request.repo target)
              (p.encode_ref (record { oid = request.merge_commit }))
            ∷ []))))
      s.catalog (set_ref p.wire.uuid_text request.repo target (some request.merge_commit) s.refs)
      (λ c. record { id = request.pr; committed = c })

unfoldable pub merge_pull :
    Platform → Ambient → Service → MergePull → Run (Service × Result Outcome CommandError)
merge_pull p a s request =
    let target = target_ref request.target_branch in
    let current = get_ref p.wire.uuid_text request.repo target s.refs in
    if not (same_oid current (some request.expected_base))
    then returned (s, err (stale_merge (to_hex request.expected_base) (hex_option current)))
    else commit_merge p a s request target

unfoldable pub set_pull_state :
    Platform
    → Ambient
    → Service
    → (repo_id pr_id actor : ℕ) (open_it : Bool) → Run (Service × Result Outcome CommandError)
set_pull_state p a s repo_id pr_id actor open_it =
    commit_event p a s
      (pr (
        if open_it
        then PrEvent.reopened pr_id repo_id actor
        else PrEvent.closed pr_id repo_id actor))
      (some actor) pr_id
