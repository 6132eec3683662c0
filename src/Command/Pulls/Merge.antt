-- ===== src/Command/Pulls/Merge.antt =====
-- A merge against the branch that it was computed for.
use crabforge.Prelude.{
  ℕ, ◌≡◌, ◌≢◌, ◌⊎◌, inl, inr, refl, ◌&&◌, ◌==◌, Option, some, List, if◌then◌else◌, Bool-cases,
  Result, ok, err,
}
use crabforge.Str.{Text, text_eq}
use crabforge.Types.Oid.{Oid, to_hex}
use crabforge.Bus.Writer.{
  PendingRecord, WriteError, Committed, Bus, IsBroker, Run, returned, aborted, transact,
}
use crabforge.Bus.Writer.Laws.{IsAtomic, transact-IsAtomic}
use crabforge.Command.Refs.{RefMap, get_ref, set_ref, same_oid}
use crabforge.Command.Refs.Laws.{get_ref-set_ref, same_oid_iff}
use crabforge.Command.Platform.{Platform, IsPlatform}
use crabforge.Command.State.{
  CommandError, stale_merge, write, Outcome, Service, Ambient, conclude, commit,
}
use crabforge.Command.Pulls.{MergePull, target_ref, hex_option, commit_merge, merge_pull}

-- What the branch holds that a merge goes into.
abbrev pub target_oid : Platform → Service → MergePull → Option Oid
target_oid p s request =
    get_ref p.wire.uuid_text request.repo (target_ref request.target_branch) s.refs

-- What a merge may come to: the branch, which held the expected commit, holds the merge commit and
-- no other reference moved; the branch did not hold it and nothing changed; or the write failed, and
-- references and log are as they were.
abbrev pub IsMerge :
    Platform → Service → MergePull → Run (Service × Result Outcome CommandError) → Type 0
IsMerge p s request (returned (t, ok outcome)) =
    (target_oid p s request ≡ some request.expected_base)
    × (outcome.id ≡ request.pr)
    × ((q : ℕ) (name : Text)
        → get_ref p.wire.uuid_text q name t.refs ≡ (
            if request.repo == q && text_eq (target_ref request.target_branch) name
            then some request.merge_commit
            else get_ref p.wire.uuid_text q name s.refs))
IsMerge p s request (returned (t, err e)) =
    ((target_oid p s request ≢ some request.expected_base)
      × (t ≡ s)
      × (e ≡ stale_merge (to_hex request.expected_base) (hex_option (target_oid p s request))))
    ⊎ ((target_oid p s request ≡ some request.expected_base)
        × (t.refs ≡ s.refs)
        × (t.bus.log ≡ s.bus.log)
        × ((w : WriteError) × (e ≡ write w)))
IsMerge p s request (aborted log) = target_oid p s request ≡ some request.expected_base

module _ (p : Platform) (a : Ambient) (s : Service) (request : MergePull) (good : IsPlatform p)
    (current : target_oid p s request ≡ some request.expected_base) where
  abbrev moved : RefMap
  moved =
      set_ref p.wire.uuid_text request.repo (target_ref request.target_branch)
        (some request.merge_commit) s.refs

  conclude-IsMerge :
      (rs : List PendingRecord) (r : Run (Bus × Result Committed WriteError))
      → IsAtomic s.bus rs r
      → IsMerge p s request
          (conclude s s.catalog moved (λ c. record { id = request.pr; committed = c }) r)
  conclude-IsMerge rs (returned (b, ok c)) atomic = (
    current,
    refl,
    λ q name.
        get_ref-set_ref p.wire.uuid_text good.uuid_injective good.uuid_no_slash request.repo q
          (target_ref request.target_branch) name (some request.merge_commit) s.refs,
  )
  conclude-IsMerge rs (returned (b, err e)) atomic = inr (current, refl, atomic.0, (e, refl))
  conclude-IsMerge rs (aborted log) atomic = current

  commit-IsMerge :
      (recs : Result (List PendingRecord) WriteError)
      → IsBroker a.broker
      → IsMerge p s request
          (commit a s recs s.catalog moved (λ c. record { id = request.pr; committed = c }))
  unfolding commit
  commit-IsMerge (err e) b = inr (current, refl, refl, (e, refl))
  commit-IsMerge (ok rs) b =
      conclude-IsMerge rs (transact a.broker s.bus rs) (transact-IsAtomic a.broker s.bus rs b)

  commit_merge-IsMerge :
      IsBroker a.broker
      → IsMerge p s request (commit_merge p a s request (target_ref request.target_branch))
  unfolding commit_merge
  commit_merge-IsMerge b = commit-IsMerge _ b

-- On a platform and a broker that behave as documented, a merge that succeeds found the expected
-- base at the target branch and moves that branch, and nothing else, to the merge commit; against
-- another base it reports both commits and changes nothing; after a failed write references and
-- log are as they were.
pub merge_pull-IsMerge :
    (p : Platform) (a : Ambient) (s : Service) (request : MergePull)
    → IsPlatform p
    → IsBroker a.broker
    → IsMerge p s request (merge_pull p a s request)
unfolding merge_pull
merge_pull-IsMerge p a s request good b =
    let (sound, complete) = same_oid_iff (target_oid p s request) (some request.expected_base) in
    elim (Bool-cases (same_oid (target_oid p s request) (some request.expected_base))) [
      | inl same ↦ rw (same, IsMerge) (commit_merge-IsMerge p a s request good (sound same) b)
      | inr other ↦ rw (other, IsMerge) (inl (λ e. let same = complete e in cc, refl, refl))
    ]
