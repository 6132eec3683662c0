-- ===== src/Command/Catalog.antt =====
-- crates/forge-command/src/catalog.rs: which names are claimed, and the next issue numbers.
pub mod Laws
use crabforge.Prelude.{ℕ, Bool, List, [], ◌++◌, Option, none, some, length, is_empty}
use crabforge.Str.{Text, codes}
use crabforge.HashMap
use crabforge.Types.Int.{ℤ, pos}
use crabforge.Bus.Writer.{Bytes}

pub data Claim : Type 0 where
  user : (user_id : ℕ) → Claim
  repo : (repo_id : ℕ) → Claim
  issue_counter : (next : ℤ) → Claim

unfoldable pub user_key : Text → Text
user_key username_lower = codes "user:" ++ username_lower

unfoldable pub repo_key : Text → Text
repo_key full_name_lower = codes "repo:" ++ full_name_lower

unfoldable pub issue_counter_key : (ℕ → Text) → ℕ → Text
issue_counter_key uuid_text repo_id = codes "issuenum:" ++ uuid_text repo_id

-- `Catalog::claims`
abbrev pub Catalog : Type 0
Catalog = List (Text × Claim)

abbrev pub new_catalog : Catalog
new_catalog = []

-- `Catalog::apply`; `decode` is `serde_json::from_slice::<Claim>`.
unfoldable pub apply_claim : (Bytes → Option Claim) → Text → Option Bytes → Catalog → Catalog
apply_claim decode key (some bytes) claims = elim (decode bytes) [
  | some claim ↦ HashMap.insert key claim claims
  | none ↦ claims
]
apply_claim decode key none claims = HashMap.remove key claims

unfoldable pub is_claimed : Text → Catalog → Bool
is_claimed key claims = HashMap.contains_key key claims

unfoldable pub is_username_taken : Text → Catalog → Bool
unfolding is_claimed user_key
is_username_taken username_lower claims = is_claimed (user_key username_lower) claims

unfoldable pub is_repo_name_taken : Text → Catalog → Bool
unfolding is_claimed repo_key
is_repo_name_taken full_name_lower claims = is_claimed (repo_key full_name_lower) claims

-- The `match` of `next_issue_number`.
abbrev pub counter_or_one : Option Claim → ℤ
counter_or_one (some (issue_counter next)) = next
counter_or_one _ = pos 1

unfoldable pub next_issue_number : (ℕ → Text) → ℕ → Catalog → ℤ
unfolding issue_counter_key
next_issue_number uuid_text repo_id claims =
    counter_or_one (HashMap.get (issue_counter_key uuid_text repo_id) claims)
