-- ===== src/Command/Pulls/Hydrated.antt =====
-- Each command on pull requests keeps the state that a boot from the log would rebuild.
use crabforge.Prelude.{
  false, ℕ, ◌≡◌, Bool, [], ◌∷◌, some, ok, Result-cases, Bool-cases, inl, inr, ◌∙◌,
}
use crabforge.Str.{text_eq, codes}
use crabforge.Types.Oid.{Oid}
use crabforge.Events.{pr, git_ref, merged, ref_updated}
use crabforge.Bus.Writer.{IsBroker}
use crabforge.Command.Refs.{ref_key, get_ref, same_oid}
use crabforge.Command.Platform.{Platform, IsPlatform}
use crabforge.Command.Service.{ref_record}
use crabforge.Command.State.{pending, Service, Ambient, validated, max_title}
use crabforge.Command.State.Replay.{
  IsHydrated, StaysHydrated, commit-StaysHydrated, pending-topic, with_event_ok, replay-pass,
}
use crabforge.Command.Service.Hydrated.{
  commit_claim-StaysHydrated, commit_event-StaysHydrated, replay_ref, replay_nothing,
}
use crabforge.Command.Pulls.{
  set_ref, OpenPull, ReviewPull, MergePull, RecordMergeability, open_pull, review_pull,
  record_mergeability, synchronize_pull, target_ref, commit_merge, merge_pull, set_pull_state,
}

module _ (p : Platform) (a : Ambient) (s : Service) (b : IsBroker a.broker)
    (h : IsHydrated p s) where
  pub open_pull-StaysHydrated : (request : OpenPull) → StaysHydrated p (open_pull p a s request)
  unfolding open_pull
  open_pull-StaysHydrated request =
      elim (Result-cases (validated request.title (codes "title") max_title)) [
        | inr (e, bad) ↦ rw (bad, StaysHydrated) h
        | inl (title, good) ↦
            elim (Bool-cases (text_eq request.source_branch request.target_branch)) [
              | inl same ↦ rw (good, StaysHydrated) (rw (same, StaysHydrated) h)
              | inr other ↦
                  rw (good, StaysHydrated)
                    (rw (other, StaysHydrated) (commit_claim-StaysHydrated p a s b h _ _ _ _))
            ]
      ]

  pub review_pull-StaysHydrated :
      (request : ReviewPull) → StaysHydrated p (review_pull p a s request)
  unfolding review_pull
  review_pull-StaysHydrated request = commit_event-StaysHydrated p a s b h _ _ _

  pub record_mergeability-StaysHydrated :
      (request : RecordMergeability) → StaysHydrated p (record_mergeability p a s request)
  unfolding record_mergeability
  record_mergeability-StaysHydrated request = commit_event-StaysHydrated p a s b h _ _ _

  pub synchronize_pull-StaysHydrated :
      (repo_id pr_id : ℕ) (head_oid base_oid : Oid)
      → StaysHydrated p (synchronize_pull p a s repo_id pr_id head_oid base_oid)
  unfolding synchronize_pull
  synchronize_pull-StaysHydrated repo_id pr_id head_oid base_oid =
      commit_event-StaysHydrated p a s b h _ _ _

  pub set_pull_state-StaysHydrated :
      (repo_id pr_id actor : ℕ) (open_it : Bool)
      → StaysHydrated p (set_pull_state p a s repo_id pr_id actor open_it)
  unfolding set_pull_state
  set_pull_state-StaysHydrated repo_id pr_id actor open_it =
      commit_event-StaysHydrated p a s b h _ _ _

  commit_merge-StaysHydrated :
      (request : MergePull)
      → IsPlatform p
      → StaysHydrated p (commit_merge p a s request (target_ref request.target_branch))
  unfolding commit_merge
  commit_merge-StaysHydrated request good = commit-StaysHydrated p a s _ _ _ _ b h λ rs e.
      let target = target_ref request.target_branch in
      let merge_event = pr (
        merged request.pr request.repo request.merge_commit request.merged_by
          request.merged_by_name) in
      let move_event = git_ref (
        ref_updated request.repo target (some request.expected_base) (some request.merge_commit)
          request.merged_by false) in
      let (r, rest, first, second, shape) = with_event_ok _ _ e in
      let (q, later, third, fourth, shape') =
        with_event_ok (pending p a 1 move_event (some request.merged_by))
          (ok (
            ref_record p (ref_key p.wire.uuid_text request.repo target) (some request.merge_commit)
            ∷ []))
          second in
      let only : ref_record p (ref_key p.wire.uuid_text request.repo target)
              (some request.merge_commit)
            ∷ []
          ≡ later =
        cc in
      let (pass, pass') =
        replay-pass p merge_event r rest s.catalog s.refs
          (pending-topic p a 0 merge_event (some request.merged_by) first) in
      let (skip, skip') =
        replay-pass p move_event q later s.catalog s.refs
          (pending-topic p a 1 move_event (some request.merged_by) third) in
      let (one, one') =
        replay_ref p request.repo target (some request.merge_commit) [] s.catalog s.refs good in
      let (last, last') =
        replay_nothing p s.catalog
          (set_ref p.wire.uuid_text request.repo target (some request.merge_commit) s.refs) in
      rw shape (
        pass ∙ rw shape' (skip ∙ rw (← only) (one ∙ last)),
        pass' ∙ rw shape' (skip' ∙ rw (← only) (one' ∙ last')),
      )

  pub merge_pull-StaysHydrated :
      (request : MergePull) → IsPlatform p → StaysHydrated p (merge_pull p a s request)
  unfolding merge_pull
  merge_pull-StaysHydrated request good =
      elim (Bool-cases (
        same_oid (get_ref p.wire.uuid_text request.repo (target_ref request.target_branch) s.refs)
          (some request.expected_base))) [
            | inl same ↦ rw (same, StaysHydrated) (commit_merge-StaysHydrated request good)
            | inr moved ↦ rw (moved, StaysHydrated) h
          ]
