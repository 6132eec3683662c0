-- ===== src/Command/Execute/Fails.antt =====
-- A command that answers with an error leaves no trace.
use crabforge.Prelude.{
  Option, err, ℕ, ◌≡◌, refl, List, some, Result, ok, Result-cases, Bool-cases, inl, inr, is_empty,
}
use crabforge.Str.{text_eq, codes, Text}
use crabforge.Types.Names.{parse_username, parse_repo_name, full_name_lower}
use crabforge.Events.{DomainEvent}
use crabforge.Bus.Writer.{
  IsBroker, Run, returned, aborted, PendingRecord, WriteError, Committed, Bus, transact,
}
use crabforge.Command.Catalog.{is_username_taken, is_repo_name_taken, Catalog, Claim}
use crabforge.Command.Refs.{RefUpdate, get_ref, same_oid, RefMap}
use crabforge.Command.Platform.{Platform}
use crabforge.Command.State.{
  CommandError, Service, Ambient, validated, max_title, max_body, conclude, commit,
}
use crabforge.Command.Service.{
  register_user, create_repo, open_issue, comment_on_issue, set_issue_state, check_all,
  any_rejected, update_refs, RegisterUser, CreateRepo, OpenIssue, CommentOnIssue, commit_claim,
  commit_event,
}
use crabforge.Command.Pulls.{
  open_pull, review_pull, record_mergeability, synchronize_pull, target_ref, commit_merge,
  merge_pull, set_pull_state, OpenPull, MergePull,
}
use crabforge.Command.Execute.{
  Command, register, create, report, discuss, switch_issue, push, propose, review, try_merge,
  synchronize, merge, switch_pull, Reply, done, pushed, relabel, execute,
}
use crabforge.Bus.Writer.Laws.{IsAtomic, transact-IsAtomic}

-- After an error the catalog, the references and the log are what they were.
abbrev pub FailsClean : {A : Type 0} → Service → Run (Service × Result A CommandError) → Type 0
FailsClean s (returned (t, ok reply)) = Unit
FailsClean s (returned (t, err e)) =
    (t.catalog ≡ s.catalog) × (t.refs ≡ s.refs) × (t.bus.log ≡ s.bus.log)
FailsClean s (aborted log) = Unit

conclude-FailsClean :
    {A : Type 0} (s : Service) (rs : List PendingRecord) (catalog : Catalog) (refs : RefMap)
    (reply : Committed → A) (r : Run (Bus × Result Committed WriteError))
    → IsAtomic s.bus rs r
    → FailsClean s (conclude s catalog refs reply r)
conclude-FailsClean s rs catalog refs reply (returned (b, ok c)) atomic = tt
conclude-FailsClean s rs catalog refs reply (returned (b, err e)) atomic = (refl, refl, atomic.0)
conclude-FailsClean s rs catalog refs reply (aborted log) atomic = tt

commit-FailsClean :
    {A : Type 0} (p : Platform) (a : Ambient) (s : Service)
    → IsBroker a.broker
    → (recs : Result (List PendingRecord) WriteError) (catalog : Catalog) (refs : RefMap)
      (reply : Committed → A)
    → FailsClean s (commit a s recs catalog refs reply)
unfolding commit
commit-FailsClean p a s b (err e) catalog refs reply = (refl, refl, refl)
commit-FailsClean p a s b (ok rs) catalog refs reply =
    conclude-FailsClean s rs catalog refs reply (transact a.broker s.bus rs)
      (transact-IsAtomic a.broker s.bus rs b)

commit_claim-FailsClean :
    (p : Platform) (a : Ambient) (s : Service)
    → IsBroker a.broker
    → (event : DomainEvent) (actor : ℕ) (key : Text) (claim : Claim)
    → FailsClean s (commit_claim p a s event actor key claim)
unfolding commit_claim
commit_claim-FailsClean p a s b event actor key claim = commit-FailsClean p a s b _ _ _ _

commit_event-FailsClean :
    (p : Platform) (a : Ambient) (s : Service)
    → IsBroker a.broker
    → (event : DomainEvent) (actor : Option ℕ) (id : ℕ)
    → FailsClean s (commit_event p a s event actor id)
unfolding commit_event
commit_event-FailsClean p a s b event actor id = commit-FailsClean p a s b _ _ _ _

module _ (p : Platform) (a : Ambient) (s : Service) (b : IsBroker a.broker) where
  register_user-FailsClean : (r : RegisterUser) → FailsClean s (register_user p a s r)
  unfolding register_user is_username_taken
  register_user-FailsClean r = elim (Result-cases (parse_username r.username)) [
    | inr (e, bad) ↦ rw (bad, FailsClean) (refl, refl, refl)
    | inl (u, good) ↦ elim (Bool-cases (is_username_taken u.lower s.catalog)) [
      | inl taken ↦ rw (good, FailsClean) (rw (taken, FailsClean) (refl, refl, refl))
      | inr free ↦
          rw (good, FailsClean) (rw (free, FailsClean) (commit_claim-FailsClean p a s b _ _ _ _))
    ]
  ]

  create_repo-FailsClean : (r : CreateRepo) → FailsClean s (create_repo p a s r)
  unfolding create_repo is_repo_name_taken
  create_repo-FailsClean r = elim (Result-cases (parse_repo_name r.name)) [
    | inr (e, bad) ↦ rw (bad, FailsClean) (refl, refl, refl)
    | inl (name, good) ↦
        elim (Bool-cases (is_repo_name_taken (full_name_lower r.owner_name name) s.catalog)) [
          | inl taken ↦ rw (good, FailsClean) (rw (taken, FailsClean) (refl, refl, refl))
          | inr free ↦ elim (Bool-cases a.topic_ready) [
            | inl ready ↦
                rw (good, FailsClean)
                  (rw (free, FailsClean)
                    (simp (ready, FailsClean) (commit_claim-FailsClean p a s b _ _ _ _)))
            | inr missing ↦
                rw (good, FailsClean)
                  (rw (free, FailsClean) (simp (missing, FailsClean) (refl, refl, refl)))
          ]
        ]
  ]

  open_issue-FailsClean : (r : OpenIssue) → FailsClean s (open_issue p a s r)
  unfolding open_issue
  open_issue-FailsClean r = elim (Result-cases (validated r.title (codes "title") max_title)) [
    | inr (e, bad) ↦ rw (bad, FailsClean) (refl, refl, refl)
    | inl (title, good) ↦ rw (good, FailsClean) (commit_claim-FailsClean p a s b _ _ _ _)
  ]

  comment_on_issue-FailsClean : (r : CommentOnIssue) → FailsClean s (comment_on_issue p a s r)
  unfolding comment_on_issue
  comment_on_issue-FailsClean r =
      elim (Result-cases (validated r.body (codes "comment") max_body)) [
        | inr (e, bad) ↦ rw (bad, FailsClean) (refl, refl, refl)
        | inl (body, good) ↦ rw (good, FailsClean) (commit_event-FailsClean p a s b _ _ _)
      ]

  update_refs-FailsClean :
      (repo_id : ℕ) (updates : List RefUpdate) (pusher : ℕ)
      → FailsClean s (update_refs p a s repo_id updates pusher)
  unfolding update_refs
  update_refs-FailsClean repo_id updates pusher = elim (Bool-cases (is_empty updates)) [
    | inl e ↦ rw (e, FailsClean) tt
    | inr e ↦ elim (Bool-cases (any_rejected (check_all p repo_id s.refs updates))) [
      | inl r ↦ rw (e, FailsClean) (rw (r, FailsClean) tt)
      | inr r ↦ rw (e, FailsClean) (rw (r, FailsClean) (commit-FailsClean p a s b _ _ _ _))
    ]
  ]

  open_pull-FailsClean : (r : OpenPull) → FailsClean s (open_pull p a s r)
  unfolding open_pull
  open_pull-FailsClean r = elim (Result-cases (validated r.title (codes "title") max_title)) [
    | inr (e, bad) ↦ rw (bad, FailsClean) (refl, refl, refl)
    | inl (title, good) ↦ elim (Bool-cases (text_eq r.source_branch r.target_branch)) [
      | inl same ↦ rw (good, FailsClean) (rw (same, FailsClean) (refl, refl, refl))
      | inr other ↦
          rw (good, FailsClean) (rw (other, FailsClean) (commit_claim-FailsClean p a s b _ _ _ _))
    ]
  ]

  commit_merge-FailsClean :
      (r : MergePull) → FailsClean s (commit_merge p a s r (target_ref r.target_branch))
  unfolding commit_merge
  commit_merge-FailsClean r = commit-FailsClean p a s b _ _ _ _

  merge_pull-FailsClean : (r : MergePull) → FailsClean s (merge_pull p a s r)
  unfolding merge_pull
  merge_pull-FailsClean r =
      elim (Bool-cases (
        same_oid (get_ref p.wire.uuid_text r.repo (target_ref r.target_branch) s.refs)
          (some r.expected_base))) [
            | inl same ↦ rw (same, FailsClean) (commit_merge-FailsClean r)
            | inr moved ↦ rw (moved, FailsClean) (refl, refl, refl)
          ]

  relabel-FailsClean :
      {A : Type 0} (f : A → Reply) (r : Run (Service × Result A CommandError))
      → FailsClean s r
      → FailsClean s (relabel f r)
  relabel-FailsClean f (returned (t, ok x)) g = g
  relabel-FailsClean f (returned (t, err e)) g = g
  relabel-FailsClean f (aborted log) g = g

  -- On a broker that behaves as documented, a command that answers with an error leaves the catalog,
  -- the references and the log as they were, whatever the command.
  pub execute-FailsClean : (c : Command) → FailsClean s (execute p a s c)
  unfolding execute set_issue_state review_pull record_mergeability synchronize_pull set_pull_state
  execute-FailsClean (register r) =
      relabel-FailsClean done (register_user p a s r) (register_user-FailsClean r)
  execute-FailsClean (create r) =
      relabel-FailsClean done (create_repo p a s r) (create_repo-FailsClean r)
  execute-FailsClean (report r) =
      relabel-FailsClean done (open_issue p a s r) (open_issue-FailsClean r)
  execute-FailsClean (discuss r) =
      relabel-FailsClean done (comment_on_issue p a s r) (comment_on_issue-FailsClean r)
  execute-FailsClean (switch_issue repo_id issue_id actor open_it) =
      relabel-FailsClean done (set_issue_state p a s repo_id issue_id actor open_it)
        (commit_event-FailsClean p a s b _ _ _)
  execute-FailsClean (push repo_id updates pusher) =
      relabel-FailsClean pushed (update_refs p a s repo_id updates pusher)
        (update_refs-FailsClean repo_id updates pusher)
  execute-FailsClean (propose r) =
      relabel-FailsClean done (open_pull p a s r) (open_pull-FailsClean r)
  execute-FailsClean (review r) =
      relabel-FailsClean done (review_pull p a s r) (commit_event-FailsClean p a s b _ _ _)
  execute-FailsClean (try_merge r) =
      relabel-FailsClean done (record_mergeability p a s r) (commit_event-FailsClean p a s b _ _ _)
  execute-FailsClean (synchronize repo_id pr_id head_oid base_oid) =
      relabel-FailsClean done (synchronize_pull p a s repo_id pr_id head_oid base_oid)
        (commit_event-FailsClean p a s b _ _ _)
  execute-FailsClean (merge r) =
      relabel-FailsClean done (merge_pull p a s r) (merge_pull-FailsClean r)
  execute-FailsClean (switch_pull repo_id pr_id actor open_it) =
      relabel-FailsClean done (set_pull_state p a s repo_id pr_id actor open_it)
        (commit_event-FailsClean p a s b _ _ _)
