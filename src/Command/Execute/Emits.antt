-- ===== src/Command/Execute/Emits.antt =====
-- What a command may append to the log.
use crabforge.Prelude.{
  ℕ, suc, ◌≡◌, refl, ◌⊎◌, inl, inr, Bool, false, List, [], ◌∷◌, ◌++◌, Option, none, some, Result,
  ok, err, All,
}
use crabforge.Str.{Text, text_eq}
use crabforge.Types.Topics
use crabforge.Types.Oid.{Oid}
use crabforge.Types.Int.{succ_i64}
use crabforge.Events.{DomainEvent}
use crabforge.Bus.Writer.{
  Bus, PendingRecord, WriteError, Committed, IsBroker, Run, returned, aborted, state_record,
  transact,
}
use crabforge.Bus.Writer.Laws.{IsAtomic, transact-IsAtomic}
use crabforge.Command.Catalog.{
  Catalog, Claim, issue_counter, user_key, repo_key, issue_counter_key, is_claimed,
  next_issue_number,
}
use crabforge.Command.Refs.{RefMap, RefUpdate, ref_key}
use crabforge.Command.Platform.{Platform}
use crabforge.Command.State.{Service, Ambient, pending, conclude, commit}
use crabforge.Command.State.Replay.{pending-topic, with_event_ok, topic-ne-catalog}
use crabforge.Command.Service.{commit_claim, commit_event, ref_record, ref_records}

abbrev pub is_catalog_record : PendingRecord → Bool
is_catalog_record r = text_eq r.topic Topics.meta_catalog

-- Records that touch no claim.
abbrev pub IsPlain : List PendingRecord → Type 0
IsPlain = All (λ r. is_catalog_record r ≡ false)

-- The claim record of a key.
abbrev pub claim_record : Platform → Text → Claim → PendingRecord
claim_record p key claim = state_record Topics.meta_catalog key (p.encode_claim claim)

-- What the records of a transaction may be, given the catalog that the command decided against:
-- no claim; an event with the claim of a free name; or an event with the next number of an issue
-- counter.
pub data Emits (p : Platform) (claims : Catalog) (rs : List PendingRecord) : Type 0 where
  plain : IsPlain rs → Emits p claims rs
  user_name :
      (e : PendingRecord) (lower : Text) (claim : Claim)
      → is_catalog_record e ≡ false
      → is_claimed (user_key lower) claims ≡ false
      → rs ≡ e ∷ claim_record p (user_key lower) claim ∷ []
      → Emits p claims rs
  repo_name :
      (e : PendingRecord) (full : Text) (claim : Claim)
      → is_catalog_record e ≡ false
      → is_claimed (repo_key full) claims ≡ false
      → rs ≡ e ∷ claim_record p (repo_key full) claim ∷ []
      → Emits p claims rs
  number :
      (e : PendingRecord) (repo_id : ℕ)
      → is_catalog_record e ≡ false
      → rs
        ≡ e
          ∷ claim_record p
              (issue_counter_key p.wire.uuid_text repo_id)
              (issue_counter (succ_i64 (next_issue_number p.wire.uuid_text repo_id claims)))
          ∷ []
      → Emits p claims rs

-- The log that a call leaves.
abbrev pub log_after : {A : Type 0} → Run (Service × A) → List PendingRecord
log_after (returned (s, r)) = s.bus.log
log_after (aborted log) = log

abbrev pub Grows : Platform → Service → List PendingRecord → Type 0
Grows p s log =
    (log ≡ s.bus.log) ⊎ ((rs : List PendingRecord) × Emits p s.catalog rs × (log ≡ s.bus.log ++ rs))

conclude-Grows :
    {A : Type 0} (p : Platform) (s : Service) (rs : List PendingRecord) (catalog : Catalog)
    (refs : RefMap) (reply : Committed → A) (r : Run (Bus × Result Committed WriteError))
    → Emits p s.catalog rs
    → IsAtomic s.bus rs r
    → Grows p s (log_after (conclude s catalog refs reply r))
conclude-Grows p s rs catalog refs reply (returned (b, ok c)) e atomic = inr (rs, e, atomic.0)
conclude-Grows p s rs catalog refs reply (returned (b, err x)) e atomic = inl atomic.0
conclude-Grows p s rs catalog refs reply (aborted log) e (inl same) = inl same
conclude-Grows p s rs catalog refs reply (aborted log) e (inr landed) = inr (rs, e, landed)

pub commit-Grows :
    {A : Type 0} (p : Platform) (a : Ambient) (s : Service)
    (recs : Result (List PendingRecord) WriteError) (catalog : Catalog) (refs : RefMap)
    (reply : Committed → A)
    → IsBroker a.broker
    → ((rs : List PendingRecord) → recs ≡ ok rs → Emits p s.catalog rs)
    → Grows p s (log_after (commit a s recs catalog refs reply))
unfolding commit
commit-Grows p a s (err e) catalog refs reply b k = inl refl
commit-Grows p a s (ok rs) catalog refs reply b k =
    conclude-Grows p s rs catalog refs reply (transact a.broker s.bus rs) (k rs refl)
      (transact-IsAtomic a.broker s.bus rs b)

pub pending-is_catalog_record :
    (p : Platform) (a : Ambient) (i : ℕ) (e : DomainEvent) (actor : Option ℕ) {r : PendingRecord}
    → pending p a i e actor ≡ ok r
    → is_catalog_record r ≡ false
pending-is_catalog_record p a i e actor h = rw (pending-topic p a i e actor h) (topic-ne-catalog e)

pub ref_record-is_catalog_record :
    (p : Platform) (key : Text) (new : Option Oid)
    → is_catalog_record (ref_record p key new) ≡ false
unfolding text_eq
ref_record-is_catalog_record p key none = refl
ref_record-is_catalog_record p key (some oid) = refl

pub ref_records-IsPlain :
    (p : Platform) (a : Ambient) (i repo_id pusher : ℕ) (updates : List RefUpdate)
    (rs : List PendingRecord)
    → ref_records p a i repo_id pusher updates ≡ ok rs
    → IsPlain rs
unfolding ref_records
ref_records-IsPlain p a i repo_id pusher [] rs e = let only : [] ≡ rs = cc in rw (← only) tt
ref_records-IsPlain p a i repo_id pusher (u ∷ us) rs e =
    let (r, rest, first, second, shape) = with_event_ok _ _ e in
    let key = ref_key p.wire.uuid_text repo_id u.name in
    let (q, later, third, fourth, shape') =
      with_event_ok (ok (ref_record p key u.new)) (ref_records p a (suc i) repo_id pusher us)
        second in
    let moved : ref_record p key u.new ≡ q = cc in
    rw shape (
      pending-is_catalog_record p a i _ (some pusher) first,
      rw shape' (
        rw (← moved) (ref_record-is_catalog_record p key u.new),
        ref_records-IsPlain p a (suc i) repo_id pusher us later fourth,
      ),
    )

module _ (p : Platform) (a : Ambient) (s : Service) (b : IsBroker a.broker) where
  pub commit_event-Grows :
      (event : DomainEvent) (actor : Option ℕ) (id : ℕ)
      → Grows p s (log_after (commit_event p a s event actor id))
  unfolding commit_event
  commit_event-Grows event actor id = commit-Grows p a s _ _ _ _ b λ rs e.
      let (r, rest, first, second, shape) = with_event_ok (pending p a 0 event actor) (ok []) e in
      let only : [] ≡ rest = cc in
      plain (rw shape (pending-is_catalog_record p a 0 event actor first, rw (← only) tt))

  pub commit_claim-Grows :
      (event : DomainEvent) (actor : ℕ) (key : Text) (claim : Claim)
      → ((e : PendingRecord)
          → is_catalog_record e ≡ false
          → Emits p s.catalog (e ∷ claim_record p key claim ∷ []))
      → Grows p s (log_after (commit_claim p a s event actor key claim))
  unfolding commit_claim
  commit_claim-Grows event actor key claim emits = commit-Grows p a s _ _ _ _ b λ rs e.
      let (r, rest, first, second, shape) = with_event_ok _ _ e in
      let only : claim_record p key claim ∷ [] ≡ rest = cc in
      rw shape (rw (← only) (emits r (pending-is_catalog_record p a 0 event (some actor) first)))
