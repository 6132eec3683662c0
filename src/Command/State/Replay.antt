-- ===== src/Command/State/Replay.antt =====
-- The service's state against the log: a committed transaction changes both alike.
use crabforge.Prelude.{
  ℕ, ◌≡◌, refl, sym, ap, ◌∙◌, false, List, [], ◌∷◌, ◌++◌, Option, arith, Result, ok, err,
}
use crabforge.Str.{text_eq}
use crabforge.Types.Topics
use crabforge.Events.{DomainEvent, user, repo, issue, pr, git_ref}
use crabforge.Events.Routing.{topic}
use crabforge.Bus.Writer.{
  Bus, PendingRecord, WriteError, Committed, IsBroker, Run, returned, aborted, event_record,
  transact,
}
use crabforge.Bus.Writer.Laws.{IsAtomic, transact-IsAtomic}
use crabforge.Command.Catalog.{Catalog}
use crabforge.Command.Refs.{RefMap}
use crabforge.Command.Platform.{Platform}
use crabforge.Command.State.{
  Service, Ambient, replay_claims, replay_refs, pending, with_event, conclude, commit,
}

pub replay_claims-append :
    (p : Platform) (log more : List PendingRecord) (c : Catalog)
    → replay_claims p (log ++ more) c ≡ replay_claims p more (replay_claims p log c)
unfolding replay_claims
replay_claims-append p [] more c = refl
replay_claims-append p (r ∷ log) more c = replay_claims-append p log more _

pub replay_refs-append :
    (p : Platform) (log more : List PendingRecord) (c : RefMap)
    → replay_refs p (log ++ more) c ≡ replay_refs p more (replay_refs p log c)
unfolding replay_refs
replay_refs-append p [] more c = refl
replay_refs-append p (r ∷ log) more c = replay_refs-append p log more _

-- The state that a boot from the log would rebuild.
pub record IsHydrated (p : Platform) (s : Service) : Type 0 where
  pub claims : s.catalog ≡ replay_claims p s.bus.log []
  pub references : s.refs ≡ replay_refs p s.bus.log []

-- After a command that returns, its state is what a boot would rebuild.
abbrev pub StaysHydrated : {A : Type 0} → Platform → Run (Service × A) → Type 0
StaysHydrated p (returned (s, reply)) = IsHydrated p s
StaysHydrated p (aborted log) = Unit

-- What the records of a transaction make of the state when they are replayed.
abbrev pub Replays : Platform → Service → List PendingRecord → Catalog → RefMap → Type 0
Replays p s rs catalog refs =
    (replay_claims p rs s.catalog ≡ catalog) × (replay_refs p rs s.refs ≡ refs)

conclude-StaysHydrated :
    {A : Type 0} (p : Platform) (s : Service) (rs : List PendingRecord) (catalog : Catalog)
    (refs : RefMap) (reply : Committed → A) (r : Run (Bus × Result Committed WriteError))
    → IsHydrated p s
    → Replays p s rs catalog refs
    → IsAtomic s.bus rs r
    → StaysHydrated p (conclude s catalog refs reply r)
conclude-StaysHydrated p s rs catalog refs reply (returned (b, ok c)) h k atomic = record {
  claims =
      sym k.0
      ∙ (ap (replay_claims p rs) h.claims
          ∙ (sym (replay_claims-append p s.bus.log rs [])
              ∙ ap (λ l. replay_claims p l []) (sym atomic.0)));
  references =
      sym k.1
      ∙ (ap (replay_refs p rs) h.references
          ∙ (sym (replay_refs-append p s.bus.log rs [])
              ∙ ap (λ l. replay_refs p l []) (sym atomic.0)));
}
conclude-StaysHydrated p s rs catalog refs reply (returned (b, err e)) h k atomic = record {
  claims = h.claims ∙ ap (λ l. replay_claims p l []) (sym atomic.0);
  references = h.references ∙ ap (λ l. replay_refs p l []) (sym atomic.0);
}
conclude-StaysHydrated p s rs catalog refs reply (aborted log) h k atomic = tt

pub commit-StaysHydrated :
    {A : Type 0} (p : Platform) (a : Ambient) (s : Service)
    (recs : Result (List PendingRecord) WriteError) (catalog : Catalog) (refs : RefMap)
    (reply : Committed → A)
    → IsBroker a.broker
    → IsHydrated p s
    → ((rs : List PendingRecord) → recs ≡ ok rs → Replays p s rs catalog refs)
    → StaysHydrated p (commit a s recs catalog refs reply)
unfolding commit
commit-StaysHydrated p a s (err e) catalog refs reply b h k = h
commit-StaysHydrated p a s (ok rs) catalog refs reply b h k =
    conclude-StaysHydrated p s rs catalog refs reply (transact a.broker s.bus rs) h (k rs refl)
      (transact-IsAtomic a.broker s.bus rs b)

-- An event's record goes to a topic of events, which no state is replayed from.
pub topic-ne-catalog : (e : DomainEvent) → text_eq (topic e) Topics.meta_catalog ≡ false
unfolding topic text_eq
topic-ne-catalog (user e) = refl
topic-ne-catalog (repo e) = refl
topic-ne-catalog (issue e) = refl
topic-ne-catalog (pr e) = refl
topic-ne-catalog (git_ref e) = refl

topic-ne-git_refs : (e : DomainEvent) → text_eq (topic e) Topics.git_refs ≡ false
unfolding topic text_eq
topic-ne-git_refs (user e) = refl
topic-ne-git_refs (repo e) = refl
topic-ne-git_refs (issue e) = refl
topic-ne-git_refs (pr e) = refl
topic-ne-git_refs (git_ref e) = refl

pub pending-topic :
    (p : Platform) (a : Ambient) (i : ℕ) (e : DomainEvent) (actor : Option ℕ) {r : PendingRecord}
    → pending p a i e actor ≡ ok r
    → r.topic ≡ topic e
unfolding pending event_record
pending-topic p a i e actor h = ground arith

pub with_event_ok :
    (x : Result PendingRecord WriteError) (y : Result (List PendingRecord) WriteError)
    {rs : List PendingRecord}
    → with_event x y ≡ ok rs
    → (r : PendingRecord) × (rest : List PendingRecord) × (x ≡ ok r)
      × (y ≡ ok rest)
      × (rs ≡ r ∷ rest)
with_event_ok (err e) y h = cc
with_event_ok (ok r) (err e) h = cc
with_event_ok (ok r) (ok rest) h = (r, rest, refl, refl, cc)

-- A record on neither state topic is passed over by both replays.
pub replay-pass :
    (p : Platform) (e : DomainEvent) (r : PendingRecord) (rs : List PendingRecord) (c : Catalog)
    (m : RefMap)
    → r.topic ≡ topic e
    → (replay_claims p (r ∷ rs) c ≡ replay_claims p rs c)
      × (replay_refs p (r ∷ rs) m ≡ replay_refs p rs m)
unfolding replay_claims replay_refs
replay-pass p e r rs c m h = (simp (h, topic-ne-catalog e), simp (h, topic-ne-git_refs e))
