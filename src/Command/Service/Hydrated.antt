-- ===== src/Command/Service/Hydrated.antt =====
-- Each command on users, repositories, issues and references keeps the state that a boot from the
-- log would rebuild.
use crabforge.Prelude.{
  ℕ, suc, ◌≡◌, refl, ◌∙◌, Bool, false, List, [], ◌∷◌, Option, none, some, ok, Result-cases,
  Bool-cases, inl, inr, is_empty,
}
use crabforge.Str.{Text, codes}
use crabforge.Types.Topics
use crabforge.Types.Oid.{Oid}
use crabforge.Types.Names.{parse_username, parse_repo_name, full_name_lower}
use crabforge.Events.{DomainEvent, git_ref, ref_updated}
use crabforge.Bus.Writer.{PendingRecord, IsBroker, state_record}
use crabforge.Command.Catalog.{Catalog, Claim, apply_claim, is_username_taken, is_repo_name_taken}
use crabforge.Command.Refs.{RefMap, RefUpdate, ref_key, apply_ref, set_ref}
use crabforge.Command.Platform.{Platform, IsPlatform}
use crabforge.Command.State.{
  Service, Ambient, replay_claims, replay_refs, validated, max_title, max_body,
}
use crabforge.Command.State.Replay.{
  IsHydrated, StaysHydrated, commit-StaysHydrated, pending-topic, with_event_ok, replay-pass,
}
use crabforge.Command.Service.{
  RegisterUser, CreateRepo, OpenIssue, CommentOnIssue, commit_claim, commit_event, register_user,
  create_repo, open_issue, comment_on_issue, set_issue_state, check_all, any_rejected, ref_record,
  ref_records, set_all, update_refs,
}

replay_one_claim :
    (p : Platform) (key : Text) (claim : Claim) (c : Catalog) (m : RefMap)
    → let r = state_record Topics.meta_catalog key (p.encode_claim claim) in
      (replay_claims p (r ∷ []) c ≡ apply_claim p.decode_claim key (some (p.encode_claim claim)) c)
      × (replay_refs p (r ∷ []) m ≡ m)
unfolding replay_claims replay_refs
replay_one_claim p key claim c m = (refl, refl)

pub replay_nothing :
    (p : Platform) (c : Catalog) (m : RefMap)
    → (replay_claims p [] c ≡ c) × (replay_refs p [] m ≡ m)
unfolding replay_claims replay_refs
replay_nothing p c m = (refl, refl)

-- The record of one update is replayed as the move of the reference.
pub replay_ref :
    (p : Platform) (repo_id : ℕ) (name : Text) (new : Option Oid) (rs : List PendingRecord)
    (c : Catalog) (m : RefMap)
    → IsPlatform p
    → let r = ref_record p (ref_key p.wire.uuid_text repo_id name) new in
      (replay_claims p (r ∷ rs) c ≡ replay_claims p rs c)
      × (replay_refs p (r ∷ rs) m ≡ replay_refs p rs (set_ref p.wire.uuid_text repo_id name new m))
unfolding replay_claims replay_refs set_ref apply_ref
replay_ref p repo_id name none rs c m good = (refl, refl)
replay_ref p repo_id name (some oid) rs c m good =
    (refl, rw (good.ref_read_back (record { oid = oid })))

-- The records of a push are replayed as its updates, and touch no claim.
pub ref_records-Replays :
    (p : Platform) (a : Ambient) (i repo_id pusher : ℕ) (updates : List RefUpdate)
    (rs : List PendingRecord) (c : Catalog) (m : RefMap)
    → IsPlatform p
    → ref_records p a i repo_id pusher updates ≡ ok rs
    → (replay_claims p rs c ≡ c) × (replay_refs p rs m ≡ set_all p repo_id updates m)
unfolding ref_records set_all
ref_records-Replays p a i repo_id pusher [] rs c m good e =
    let only : [] ≡ rs = cc in rw (← only) (replay_nothing p c m)
ref_records-Replays p a i repo_id pusher (u ∷ us) rs c m good e =
    let event = git_ref (ref_updated repo_id u.name u.expected_old u.new pusher false) in
    let (r, rest, first, second, shape) = with_event_ok _ _ e in
    let (q, later, third, fourth, shape') =
      with_event_ok (ok (ref_record p (ref_key p.wire.uuid_text repo_id u.name) u.new))
        (ref_records p a (suc i) repo_id pusher us) second in
    let moved : ref_record p (ref_key p.wire.uuid_text repo_id u.name) u.new ≡ q = cc in
    let (pass, pass') =
      replay-pass p event r rest c m (pending-topic p a i event (some pusher) first) in
    let (one, one') = replay_ref p repo_id u.name u.new later c m good in
    let (all, all') =
      ref_records-Replays p a (suc i) repo_id pusher us later c
        (set_ref p.wire.uuid_text repo_id u.name u.new m) good fourth in
    rw shape
      (pass ∙ rw shape' (rw (← moved) (one ∙ all)), pass' ∙ rw shape' (rw (← moved) (one' ∙ all')))

module _ (p : Platform) (a : Ambient) (s : Service) (b : IsBroker a.broker)
    (h : IsHydrated p s) where
  pub commit_claim-StaysHydrated :
      (event : DomainEvent) (actor : ℕ) (key : Text) (claim : Claim)
      → StaysHydrated p (commit_claim p a s event actor key claim)
  unfolding commit_claim
  commit_claim-StaysHydrated event actor key claim = commit-StaysHydrated p a s _ _ _ _ b h λ rs e.
      let (r, rest, first, second, shape) = with_event_ok _ _ e in
      let only : state_record Topics.meta_catalog key (p.encode_claim claim) ∷ [] ≡ rest = cc in
      let (claims, refs) = replay_one_claim p key claim s.catalog s.refs in
      let (pass, pass') =
        replay-pass p event r rest s.catalog s.refs
          (pending-topic p a 0 event (some actor) first) in
      rw shape (pass ∙ rw (← only) claims, pass' ∙ rw (← only) refs)

  pub commit_event-StaysHydrated :
      (event : DomainEvent) (actor : Option ℕ) (id : ℕ)
      → StaysHydrated p (commit_event p a s event actor id)
  unfolding commit_event
  commit_event-StaysHydrated event actor id = commit-StaysHydrated p a s _ _ _ _ b h λ rs e.
      let (r, rest, first, second, shape) = with_event_ok _ _ e in
      let only : [] ≡ rest = cc in
      let (pass, pass') =
        replay-pass p event r rest s.catalog s.refs (pending-topic p a 0 event actor first) in
      rw shape (
        pass ∙ rw (← only) (replay_nothing p s.catalog s.refs).0,
        pass' ∙ rw (← only) (replay_nothing p s.catalog s.refs).1,
      )

  pub register_user-StaysHydrated :
      (request : RegisterUser) → StaysHydrated p (register_user p a s request)
  unfolding register_user
  register_user-StaysHydrated request = elim (Result-cases (parse_username request.username)) [
    | inr (e, bad) ↦ rw (bad, StaysHydrated) h
    | inl (u, good) ↦ elim (Bool-cases (is_username_taken u.lower s.catalog)) [
      | inl taken ↦ rw (good, StaysHydrated) (rw (taken, StaysHydrated) h)
      | inr free ↦
          rw (good, StaysHydrated) (rw (free, StaysHydrated) (commit_claim-StaysHydrated _ _ _ _))
    ]
  ]

  pub create_repo-StaysHydrated :
      (request : CreateRepo) → StaysHydrated p (create_repo p a s request)
  unfolding create_repo
  create_repo-StaysHydrated request = elim (Result-cases (parse_repo_name request.name)) [
    | inr (e, bad) ↦ rw (bad, StaysHydrated) h
    | inl (name, good) ↦
        elim (Bool-cases (is_repo_name_taken (full_name_lower request.owner_name name) s.catalog)) [
          | inl taken ↦ rw (good, StaysHydrated) (rw (taken, StaysHydrated) h)
          | inr free ↦ elim (Bool-cases a.topic_ready) [
            | inl ready ↦
                rw (good, StaysHydrated)
                  (rw (free, StaysHydrated)
                    (simp (ready, StaysHydrated) (commit_claim-StaysHydrated _ _ _ _)))
            | inr missing ↦
                rw (good, StaysHydrated)
                  (rw (free, StaysHydrated) (simp (missing, StaysHydrated) h))
          ]
        ]
  ]

  pub open_issue-StaysHydrated : (request : OpenIssue) → StaysHydrated p (open_issue p a s request)
  unfolding open_issue
  open_issue-StaysHydrated request =
      elim (Result-cases (validated request.title (codes "title") max_title)) [
        | inr (e, bad) ↦ rw (bad, StaysHydrated) h
        | inl (title, good) ↦ rw (good, StaysHydrated) (commit_claim-StaysHydrated _ _ _ _)
      ]

  pub comment_on_issue-StaysHydrated :
      (request : CommentOnIssue) → StaysHydrated p (comment_on_issue p a s request)
  unfolding comment_on_issue
  comment_on_issue-StaysHydrated request =
      elim (Result-cases (validated request.body (codes "comment") max_body)) [
        | inr (e, bad) ↦ rw (bad, StaysHydrated) h
        | inl (body, good) ↦ rw (good, StaysHydrated) (commit_event-StaysHydrated _ _ _)
      ]

  pub set_issue_state-StaysHydrated :
      (repo_id issue_id actor : ℕ) (open_it : Bool)
      → StaysHydrated p (set_issue_state p a s repo_id issue_id actor open_it)
  unfolding set_issue_state
  set_issue_state-StaysHydrated repo_id issue_id actor open_it = commit_event-StaysHydrated _ _ _

  pub update_refs-StaysHydrated :
      (repo_id : ℕ) (updates : List RefUpdate) (pusher : ℕ)
      → IsPlatform p
      → StaysHydrated p (update_refs p a s repo_id updates pusher)
  unfolding update_refs
  update_refs-StaysHydrated repo_id updates pusher good = elim (Bool-cases (is_empty updates)) [
    | inl e ↦ rw (e, StaysHydrated) h
    | inr e ↦ elim (Bool-cases (any_rejected (check_all p repo_id s.refs updates))) [
      | inl r ↦ rw (e, StaysHydrated) (rw (r, StaysHydrated) h)
      | inr r ↦
          rw (e, StaysHydrated)
            (rw (r, StaysHydrated)
              (commit-StaysHydrated p a s _ _ _ _ b h λ rs built.
                ref_records-Replays p a 0 repo_id pusher updates rs s.catalog s.refs good built))
    ]
  ]
