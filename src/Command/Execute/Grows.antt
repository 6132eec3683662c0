-- ===== src/Command/Execute/Grows.antt =====
-- Each command appends nothing, or records that `Emits` allows.
use crabforge.Prelude.{
  ℕ, ◌≡◌, refl, false, List, [], ◌∷◌, some, Result, ok, Result-cases, Bool-cases, inl, inr,
  is_empty,
}
use crabforge.Str.{text_eq, codes}
use crabforge.Types.Names.{parse_username, parse_repo_name, full_name_lower}
use crabforge.Events.{pr, git_ref, merged, ref_updated}
use crabforge.Bus.Writer.{IsBroker, Run, returned, aborted}
use crabforge.Command.Catalog.{is_username_taken, is_repo_name_taken}
use crabforge.Command.Refs.{RefUpdate, get_ref, same_oid, ref_key}
use crabforge.Command.Platform.{Platform}
use crabforge.Command.State.{
  CommandError, Service, Ambient, validated, max_title, max_body, pending,
}
use crabforge.Command.State.Replay.{with_event_ok}
use crabforge.Command.Service.{
  register_user, create_repo, open_issue, comment_on_issue, set_issue_state, check_all,
  any_rejected, update_refs, RegisterUser, CreateRepo, OpenIssue, CommentOnIssue, ref_record,
}
use crabforge.Command.Pulls.{
  open_pull, review_pull, record_mergeability, synchronize_pull, target_ref, commit_merge,
  merge_pull, set_pull_state, OpenPull, MergePull,
}
use crabforge.Command.Execute.{
  Command, register, create, report, discuss, switch_issue, push, propose, review, try_merge,
  synchronize, merge, switch_pull, Reply, done, pushed, relabel, execute,
}
use crabforge.Command.Execute.Emits.{
  plain, user_name, repo_name, number, Grows, log_after, commit-Grows, commit_claim-Grows,
  commit_event-Grows, pending-is_catalog_record, ref_record-is_catalog_record, ref_records-IsPlain,
}

module _ (p : Platform) (a : Ambient) (s : Service) (b : IsBroker a.broker) where
  register_user-Grows : (r : RegisterUser) → Grows p s (log_after (register_user p a s r))
  unfolding register_user is_username_taken
  register_user-Grows r = elim (Result-cases (parse_username r.username)) [
    | inr (e, bad) ↦ rw (bad, log_after) (inl refl)
    | inl (u, good) ↦ elim (Bool-cases (is_username_taken u.lower s.catalog)) [
      | inl taken ↦ rw (good, log_after) (rw (taken, log_after) (inl refl))
      | inr free ↦
          rw (good, log_after)
            (rw (free, log_after)
              (commit_claim-Grows p a s b _ _ _ _ λ e pl. user_name e u.lower _ pl free refl))
    ]
  ]

  create_repo-Grows : (r : CreateRepo) → Grows p s (log_after (create_repo p a s r))
  unfolding create_repo is_repo_name_taken
  create_repo-Grows r = elim (Result-cases (parse_repo_name r.name)) [
    | inr (e, bad) ↦ rw (bad, log_after) (inl refl)
    | inl (name, good) ↦
        elim (Bool-cases (is_repo_name_taken (full_name_lower r.owner_name name) s.catalog)) [
          | inl taken ↦ rw (good, log_after) (rw (taken, log_after) (inl refl))
          | inr free ↦ elim (Bool-cases a.topic_ready) [
            | inl ready ↦
                rw (good, log_after)
                  (rw (free, log_after)
                    (simp (ready, log_after)
                      (commit_claim-Grows p a s b _ _ _ _
                        λ e pl. repo_name e (full_name_lower r.owner_name name) _ pl free refl)))
            | inr missing ↦
                rw (good, log_after) (rw (free, log_after) (simp (missing, log_after) (inl refl)))
          ]
        ]
  ]

  open_issue-Grows : (r : OpenIssue) → Grows p s (log_after (open_issue p a s r))
  unfolding open_issue
  open_issue-Grows r = elim (Result-cases (validated r.title (codes "title") max_title)) [
    | inr (e, bad) ↦ rw (bad, log_after) (inl refl)
    | inl (title, good) ↦
        rw (good, log_after) (commit_claim-Grows p a s b _ _ _ _ λ e pl. number e r.repo pl refl)
  ]

  comment_on_issue-Grows : (r : CommentOnIssue) → Grows p s (log_after (comment_on_issue p a s r))
  unfolding comment_on_issue
  comment_on_issue-Grows r = elim (Result-cases (validated r.body (codes "comment") max_body)) [
    | inr (e, bad) ↦ rw (bad, log_after) (inl refl)
    | inl (body, good) ↦ rw (good, log_after) (commit_event-Grows p a s b _ _ _)
  ]

  update_refs-Grows :
      (repo_id : ℕ) (updates : List RefUpdate) (pusher : ℕ)
      → Grows p s (log_after (update_refs p a s repo_id updates pusher))
  unfolding update_refs
  update_refs-Grows repo_id updates pusher = elim (Bool-cases (is_empty updates)) [
    | inl e ↦ rw (e, log_after) (inl refl)
    | inr e ↦ elim (Bool-cases (any_rejected (check_all p repo_id s.refs updates))) [
      | inl r ↦ rw (e, log_after) (rw (r, log_after) (inl refl))
      | inr r ↦
          rw (e, log_after)
            (rw (r, log_after)
              (commit-Grows p a s _ _ _ _ b
                λ rs built. plain (ref_records-IsPlain p a 0 repo_id pusher updates rs built)))
    ]
  ]

  open_pull-Grows : (r : OpenPull) → Grows p s (log_after (open_pull p a s r))
  unfolding open_pull
  open_pull-Grows r = elim (Result-cases (validated r.title (codes "title") max_title)) [
    | inr (e, bad) ↦ rw (bad, log_after) (inl refl)
    | inl (title, good) ↦ elim (Bool-cases (text_eq r.source_branch r.target_branch)) [
      | inl same ↦ rw (good, log_after) (rw (same, log_after) (inl refl))
      | inr other ↦
          rw (good, log_after)
            (rw (other, log_after)
              (commit_claim-Grows p a s b _ _ _ _ λ e pl. number e r.repo pl refl))
    ]
  ]

  commit_merge-Grows :
      (r : MergePull) → Grows p s (log_after (commit_merge p a s r (target_ref r.target_branch)))
  unfolding commit_merge
  commit_merge-Grows r = commit-Grows p a s _ _ _ _ b λ rs e.
      let target = target_ref r.target_branch in
      let moved = ref_record p (ref_key p.wire.uuid_text r.repo target) (some r.merge_commit) in
      let merge_event = pr (merged r.pr r.repo r.merge_commit r.merged_by r.merged_by_name) in
      let move_event = git_ref (
        ref_updated r.repo target (some r.expected_base) (some r.merge_commit) r.merged_by false) in
      let (x, rest, first, second, shape) = with_event_ok _ _ e in
      let (y, later, third, fourth, shape') =
        with_event_ok (pending p a 1 move_event (some r.merged_by)) (ok (moved ∷ [])) second in
      let only : moved ∷ [] ≡ later = cc in
      plain (
        rw shape (
          pending-is_catalog_record p a 0 merge_event (some r.merged_by) first,
          rw shape' (
            pending-is_catalog_record p a 1 move_event (some r.merged_by) third,
            rw (← only) (
              ref_record-is_catalog_record p (ref_key p.wire.uuid_text r.repo target)
                  (some r.merge_commit),
              tt,
            ),
          ),
        ))

  merge_pull-Grows : (r : MergePull) → Grows p s (log_after (merge_pull p a s r))
  unfolding merge_pull
  merge_pull-Grows r =
      elim (Bool-cases (
        same_oid (get_ref p.wire.uuid_text r.repo (target_ref r.target_branch) s.refs)
          (some r.expected_base))) [
            | inl same ↦ rw (same, log_after) (commit_merge-Grows r)
            | inr moved ↦ rw (moved, log_after) (inl refl)
          ]

  relabel-Grows :
      {A : Type 0} (f : A → Reply) (r : Run (Service × Result A CommandError))
      → Grows p s (log_after r)
      → Grows p s (log_after (relabel f r))
  relabel-Grows f (returned (t, x)) g = g
  relabel-Grows f (aborted log) g = g

  -- Whatever the command and the broker's answers, the log is left alone or grows by records that
  -- `Emits` allows for the catalog that the command decided against.
  pub execute-Grows : (c : Command) → Grows p s (log_after (execute p a s c))
  unfolding execute set_issue_state review_pull record_mergeability synchronize_pull set_pull_state
  execute-Grows (register r) = relabel-Grows done (register_user p a s r) (register_user-Grows r)
  execute-Grows (create r) = relabel-Grows done (create_repo p a s r) (create_repo-Grows r)
  execute-Grows (report r) = relabel-Grows done (open_issue p a s r) (open_issue-Grows r)
  execute-Grows (discuss r) =
      relabel-Grows done (comment_on_issue p a s r) (comment_on_issue-Grows r)
  execute-Grows (switch_issue repo_id issue_id actor open_it) =
      relabel-Grows done (set_issue_state p a s repo_id issue_id actor open_it)
        (commit_event-Grows p a s b _ _ _)
  execute-Grows (push repo_id updates pusher) =
      relabel-Grows pushed (update_refs p a s repo_id updates pusher)
        (update_refs-Grows repo_id updates pusher)
  execute-Grows (propose r) = relabel-Grows done (open_pull p a s r) (open_pull-Grows r)
  execute-Grows (review r) =
      relabel-Grows done (review_pull p a s r) (commit_event-Grows p a s b _ _ _)
  execute-Grows (try_merge r) =
      relabel-Grows done (record_mergeability p a s r) (commit_event-Grows p a s b _ _ _)
  execute-Grows (synchronize repo_id pr_id head_oid base_oid) =
      relabel-Grows done (synchronize_pull p a s repo_id pr_id head_oid base_oid)
        (commit_event-Grows p a s b _ _ _)
  execute-Grows (merge r) = relabel-Grows done (merge_pull p a s r) (merge_pull-Grows r)
  execute-Grows (switch_pull repo_id pr_id actor open_it) =
      relabel-Grows done (set_pull_state p a s repo_id pr_id actor open_it)
        (commit_event-Grows p a s b _ _ _)
