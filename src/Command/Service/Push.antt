-- ===== src/Command/Service/Push.antt =====
-- A push as a compare-and-swap of all its references, or of none.
use crabforge.Prelude.{
  ℕ, ◌≡◌, ◌↔◌, ◌⊎◌, inl, inr, refl, ◌∙◌, Bool, true, false, ◌||◌, ◌==◌, Option, arith, List, [],
  ◌∷◌, if◌then◌else◌, Bool-cases, Result, ok, err, is_err, is_empty, All,
}
use crabforge.Str.{Text, text_eq}
use crabforge.Types.Oid.{Oid}
use crabforge.Bus.Writer.{
  PendingRecord, WriteError, Committed, Bus, IsBroker, Run, returned, aborted, transact,
}
use crabforge.Bus.Writer.Laws.{IsAtomic, transact-IsAtomic}
use crabforge.Command.Refs.{RefMap, RefUpdate, RefResult, get_ref, set_ref, check}
use crabforge.Command.Refs.Laws.{IsAcceptable, check-IsAcceptable, get_ref-set_ref}
use crabforge.Command.Platform.{Platform, IsPlatform}
use crabforge.Command.State.{CommandError, Service, Ambient, conclude, commit}
use crabforge.Command.Service.{check_all, any_rejected, ref_records, set_all, update_refs}

-- The value that the last update of a reference gives it.
abbrev pub last_value : Text → List RefUpdate → Option Oid → Option Oid
last_value name [] current = current
last_value name (u ∷ us) current =
    last_value name us (if text_eq u.name name then u.new else current)

get_ref-set_all :
    (p : Platform) (repo_id q : ℕ) (name : Text) (updates : List RefUpdate) (refs : RefMap)
    → IsPlatform p
    → get_ref p.wire.uuid_text q name (set_all p repo_id updates refs) ≡ (
        if repo_id == q
        then last_value name updates (get_ref p.wire.uuid_text q name refs)
        else get_ref p.wire.uuid_text q name refs)
unfolding set_all
get_ref-set_all p repo_id q name [] refs good = ground arith
get_ref-set_all p repo_id q name (u ∷ us) refs good = elim (Bool-cases (repo_id == q)) [
  | inl same ↦
      get_ref-set_all p repo_id q name us (set_ref p.wire.uuid_text repo_id u.name u.new refs) good
      ∙ rw
          (
            same,
            get_ref-set_ref p.wire.uuid_text good.uuid_injective good.uuid_no_slash repo_id q u.name
                name u.new refs,
          )
          (rw same refl)
  | inr other ↦
      get_ref-set_all p repo_id q name us (set_ref p.wire.uuid_text repo_id u.name u.new refs) good
      ∙ rw
          (
            other,
            get_ref-set_ref p.wire.uuid_text good.uuid_injective good.uuid_no_slash repo_id q u.name
                name u.new refs,
          )
          (rw other refl)
]

abbrev pub Acceptable : Platform → Service → ℕ → RefUpdate → Type 0
Acceptable p s repo_id = IsAcceptable p.wire.uuid_text repo_id s.refs

or_false : (a b : Bool) → ((a || b) ≡ false) ↔ ((a ≡ false) × (b ≡ false))
or_false a b = ground arith

any_rejected-check_all :
    (p : Platform) (s : Service) (repo_id : ℕ) (updates : List RefUpdate)
    → (any_rejected (check_all p repo_id s.refs updates) ≡ false)
      ↔ All (Acceptable p s repo_id) updates
unfolding any_rejected check_all
any_rejected-check_all p s repo_id [] = (λ h. tt, λ h. refl)
any_rejected-check_all p s repo_id (u ∷ us) =
    let (one, one') = check-IsAcceptable p.wire.uuid_text repo_id s.refs u in
    let (all, all') = any_rejected-check_all p s repo_id us in
    let (split, join) =
      or_false (is_err (check p.wire.uuid_text repo_id u s.refs))
        (any_rejected (check_all p repo_id s.refs us)) in
    (λ h. (one (split h).0, all (split h).1), λ h. join (one' h.0, all' h.1))

-- What a push may come to. It answers with the verdict on each update. Either each is acceptable
-- and every named reference holds the last value given for it, all others what they held; or one is
-- not and nothing changed. A failed write changes no reference and leaves the log.
abbrev pub IsPush :
    Platform
    → Service
    → ℕ
    → List RefUpdate
    → Run (Service × Result (List RefResult) CommandError)
    → Type 0
IsPush p s repo_id updates (returned (t, ok results)) =
    (results ≡ check_all p repo_id s.refs updates)
    × ((All (Acceptable p s repo_id) updates
          × ((q : ℕ) (name : Text)
              → get_ref p.wire.uuid_text q name t.refs ≡ (
                  if repo_id == q
                  then last_value name updates (get_ref p.wire.uuid_text q name s.refs)
                  else get_ref p.wire.uuid_text q name s.refs)))
        ⊎ ((¬ All (Acceptable p s repo_id) updates) × (t ≡ s)))
IsPush p s repo_id updates (returned (t, err e)) = (t.refs ≡ s.refs) × (t.bus.log ≡ s.bus.log)
IsPush p s repo_id updates (aborted log) = All (Acceptable p s repo_id) updates

module _ (p : Platform) (a : Ambient) (s : Service) (repo_id : ℕ) (updates : List RefUpdate)
    (good : IsPlatform p) (passes : All (Acceptable p s repo_id) updates) where
  conclude-IsPush :
      (rs : List PendingRecord) (r : Run (Bus × Result Committed WriteError))
      → IsAtomic s.bus rs r
      → IsPush p s repo_id updates (
          conclude s s.catalog
            (set_all p repo_id updates s.refs)
            (λ c. check_all p repo_id s.refs updates)
            r)
  conclude-IsPush rs (returned (b, ok c)) atomic =
      (refl, inl (passes, λ q name. get_ref-set_all p repo_id q name updates s.refs good))
  conclude-IsPush rs (returned (b, err e)) atomic = (refl, atomic.0)
  conclude-IsPush rs (aborted log) atomic = passes

  commit-IsPush :
      (recs : Result (List PendingRecord) WriteError)
      → IsBroker a.broker
      → IsPush p s repo_id updates (
          commit a s recs s.catalog
            (set_all p repo_id updates s.refs)
            (λ c. check_all p repo_id s.refs updates))
  unfolding commit
  commit-IsPush (err e) b = (refl, refl)
  commit-IsPush (ok rs) b =
      conclude-IsPush rs (transact a.broker s.bus rs) (transact-IsAtomic a.broker s.bus rs b)

nothing-IsPush :
    (p : Platform) (s : Service) (repo_id : ℕ) (updates : List RefUpdate)
    → is_empty updates ≡ true
    → IsPush p s repo_id updates (returned (s, ok []))
unfolding check_all
nothing-IsPush p s repo_id [] e = (refl, inl (tt, λ q name. ground arith))
nothing-IsPush p s repo_id (u ∷ us) e = absurd (cc)

-- On a platform and a broker that behave as documented, a push moves all of its references or
-- none. If it answers with verdicts, they are those of `check_all`, and either every update is
-- acceptable against the references before the push and each named reference holds the last
-- value given for it while all others are as they were, or some update is not acceptable and the
-- service is untouched. If it answers with an error, references and log are as they were.
pub update_refs-IsPush :
    (p : Platform) (a : Ambient) (s : Service) (repo_id : ℕ) (updates : List RefUpdate) (pusher : ℕ)
    → IsPlatform p
    → IsBroker a.broker
    → IsPush p s repo_id updates (update_refs p a s repo_id updates pusher)
unfolding update_refs
update_refs-IsPush p a s repo_id updates pusher good b = elim (Bool-cases (is_empty updates)) [
  | inl e ↦ rw (e, IsPush) (nothing-IsPush p s repo_id updates e)
  | inr e ↦ elim (Bool-cases (any_rejected (check_all p repo_id s.refs updates))) [
    | inl r ↦
        rw (e, IsPush)
          (rw (r, IsPush)
            (
              refl,
              inr (
                λ passes.
                    absurd
                      (let accepted = (any_rejected-check_all p s repo_id updates).1 passes in cc),
                refl,
              ),
            ))
    | inr r ↦
        rw (e, IsPush)
          (rw (r, IsPush)
            (commit-IsPush p a s repo_id updates good
              ((any_rejected-check_all p s repo_id updates).0 r)
              (ref_records p a 0 repo_id pusher updates) b))
  ]
]
