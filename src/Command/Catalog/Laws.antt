-- ===== src/Command/Catalog/Laws.antt =====
-- The key spaces of the catalog are apart, and what applying a record does to a key.
use crabforge.Prelude.{
  [], ◌∷◌, ℕ, ◌≡◌, ◌≢◌, ap, true, false, Option, none, some, arith, if◌then◌else◌, Option-cases,
  inl, inr,
}
use crabforge.Str.{codes, Text, text_eq}
use crabforge.Str.Laws.{append-cancel_left}
use crabforge.HashMap
use crabforge.HashMap.Laws.{get-insert}
use crabforge.Bus.Writer.{Bytes}
use crabforge.Command.Catalog.{
  Claim, Catalog, user_key, repo_key, issue_counter_key, apply_claim, is_claimed,
}

abbrev first : Text → ℕ
first [] = 0
first (c ∷ s) = c

pub user_key-ne-repo_key : (a b : Text) → user_key a ≢ repo_key b
unfolding user_key repo_key
user_key-ne-repo_key a b e = omega (arith, ap first e)

pub user_key-ne-issue_counter_key :
    (f : ℕ → Text) (a : Text) (r : ℕ) → user_key a ≢ issue_counter_key f r
unfolding user_key issue_counter_key
user_key-ne-issue_counter_key f a r e = omega (arith, ap first e)

pub repo_key-ne-issue_counter_key :
    (f : ℕ → Text) (a : Text) (r : ℕ) → repo_key a ≢ issue_counter_key f r
unfolding repo_key issue_counter_key
repo_key-ne-issue_counter_key f a r e = omega (arith, ap first e)

pub issue_counter_key-injective :
    (f : ℕ → Text) (r q : ℕ) → issue_counter_key f r ≡ issue_counter_key f q → f r ≡ f q
unfolding issue_counter_key
issue_counter_key-injective f r q e = append-cancel_left (codes "issuenum:") (f r) (f q) e

-- A claim that decodes is what its key holds afterwards; other keys keep what they held.
pub get-apply_claim :
    (decode : Bytes → Option Claim) (key : Text) (bytes : Bytes) (claim : Claim) (claims : Catalog)
    (k : Text)
    → decode bytes ≡ some claim
    → HashMap.get k (apply_claim decode key (some bytes) claims)
      ≡ (if text_eq key k then some claim else HashMap.get k claims)
unfolding apply_claim
get-apply_claim decode key bytes claim claims k h =
    rw (h, apply_claim) (get-insert k key claim claims)

pub not-is_claimed :
    (k : Text) (claims : Catalog) → is_claimed k claims ≡ false → HashMap.get k claims ≡ none
unfolding is_claimed HashMap.contains_key
not-is_claimed k claims h = elim (Option-cases (HashMap.get k claims)) [
  | inl e ↦ e
  | inr (c, e) ↦
      absurd (let bad : true ≡ false = rw (e, is_claimed, HashMap.contains_key) at h in cc)
]
