-- ===== src/Command/Execute/Counts.antt =====
-- How many claim records the log holds for a key, against the catalog that the log replays to.
use crabforge.Prelude.{
  ℕ, suc, ◌+◌, ◌<◌, ◌≡◌, refl, ap, ◌∙◌, ◌⊎◌, Bool, false, ◌&&◌, List, [], ◌∷◌, ◌++◌, Option, none,
  some, arith, if◌then◌else◌,
}
use crabforge.Str.{Text, text_eq}
use crabforge.Str.Laws.{text_eq_refl}
use crabforge.HashMap
use crabforge.Types.Topics
use crabforge.Types.Int.{pos, i64_top}
use crabforge.Bus.Writer.{PendingRecord}
use crabforge.Command.Catalog.{
  Catalog, Claim, user_key, repo_key, issue_counter_key, apply_claim, next_issue_number,
}
use crabforge.Command.Catalog.Laws.{get-apply_claim}
use crabforge.Command.Platform.{Platform, IsPlatform}
use crabforge.Command.State.{replay_claims}
use crabforge.Command.State.Replay.{replay_claims-append}
use crabforge.Command.Execute.Emits.{IsPlain, is_catalog_record, claim_record}

-- How many records of the catalog's topic have a key.
unfoldable pub claims_on : Text → List PendingRecord → ℕ
claims_on k [] = 0
claims_on k (r ∷ rs) =
    let rest = claims_on k rs in if is_catalog_record r && text_eq r.key k then suc rest else rest

pub claims_on-append :
    (k : Text) (log rs : List PendingRecord)
    → claims_on k (log ++ rs) ≡ claims_on k log + claims_on k rs
unfolding claims_on
claims_on-append k [] rs = omega arith
claims_on-append k (r ∷ log) rs = ground (arith, claims_on-append k log rs)

-- The catalog that a log replays to.
abbrev pub catalog_of : Platform → List PendingRecord → Catalog
catalog_of p log = replay_claims p log []

abbrev pub present : Option Claim → ℕ
present none = 0
present (some c) = 1

-- The keys of names: of users and of repositories.
abbrev pub IsNameKey : Text → Type 0
IsNameKey k = ((lower : Text) × (k ≡ user_key lower)) ⊎ ((full : Text) × (k ≡ repo_key full))

-- One claim record for each claimed name, and issue numbers that count the records handed out.
pub record IsCounted (p : Platform) (log : List PendingRecord) : Type 0 where
  pub names :
      (k : Text) → IsNameKey k → claims_on k log ≡ present (HashMap.get k (catalog_of p log))
  pub numbers :
      (repo_id : ℕ)
      → claims_on (issue_counter_key p.wire.uuid_text repo_id) log < i64_top
      → next_issue_number p.wire.uuid_text repo_id (catalog_of p log)
        ≡ pos (1 + claims_on (issue_counter_key p.wire.uuid_text repo_id) log)

pub nil-IsCounted : (p : Platform) → IsCounted p []
unfolding claims_on replay_claims next_issue_number HashMap.get
nil-IsCounted p = record { names = λ k h. refl; numbers = λ r h. refl }

pub claims_on_plain : (k : Text) (rs : List PendingRecord) → IsPlain rs → claims_on k rs ≡ 0
unfolding claims_on
claims_on_plain k [] h = refl
claims_on_plain k (r ∷ rs) h = rw h.0 (claims_on_plain k rs h.1)

pub replay_claims_plain :
    (p : Platform) (rs : List PendingRecord) (c : Catalog) → IsPlain rs → replay_claims p rs c ≡ c
unfolding replay_claims
replay_claims_plain p [] c h = refl
replay_claims_plain p (r ∷ rs) c h = simp h.0 (replay_claims_plain p rs c h.1)

claims_on-claim_record :
    (p : Platform) (e : PendingRecord) (key k : Text) (claim : Claim)
    → is_catalog_record e ≡ false
    → claims_on k (e ∷ claim_record p key claim ∷ []) ≡ (if text_eq key k then 1 else 0)
unfolding claims_on
claims_on-claim_record p e key k claim h = rw (h, text_eq_refl Topics.meta_catalog)

replay_claims-claim_record :
    (p : Platform) (e : PendingRecord) (key : Text) (claim : Claim) (c : Catalog)
    → is_catalog_record e ≡ false
    → replay_claims p (e ∷ claim_record p key claim ∷ []) c
      ≡ apply_claim p.decode_claim key (some (p.encode_claim claim)) c
unfolding replay_claims
replay_claims-claim_record p e key claim c h =
    ap (λ m. replay_claims p (claim_record p key claim ∷ []) m)
      (replay_claims_plain p (e ∷ []) c (h, tt))

get-claim_record :
    (p : Platform) (e : PendingRecord) (key k : Text) (claim : Claim) (c : Catalog)
    → IsPlatform p
    → is_catalog_record e ≡ false
    → HashMap.get k (replay_claims p (e ∷ claim_record p key claim ∷ []) c)
      ≡ (if text_eq key k then some claim else HashMap.get k c)
get-claim_record p e key k claim c good h =
    ap (HashMap.get k) (replay_claims-claim_record p e key claim c h)
    ∙ get-apply_claim p.decode_claim key (p.encode_claim claim) claim c k
        (good.claim_read_back claim)

-- What a command's records do to the count and to the claim of a key.
pub claims_on-step :
    (p : Platform) (log : List PendingRecord) (e : PendingRecord) (key k : Text) (claim : Claim)
    (b : Bool)
    → IsPlatform p
    → is_catalog_record e ≡ false
    → text_eq key k ≡ b
    → let rs = e ∷ claim_record p key claim ∷ [] in
      (claims_on k (log ++ rs) ≡ claims_on k log + (if b then 1 else 0))
      × (HashMap.get k (catalog_of p (log ++ rs))
          ≡ (if b then some claim else HashMap.get k (catalog_of p log)))
claims_on-step p log e key k claim b good h same = rw (← same) (
  claims_on-append k log _
      ∙ ap (λ n. claims_on k log + n) (claims_on-claim_record p e key k claim h),
  ap (HashMap.get k) (replay_claims-append p log _ [])
      ∙ get-claim_record p e key k claim (catalog_of p log) good h,
)
