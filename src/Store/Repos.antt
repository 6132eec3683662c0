-- ===== src/Store/Repos.antt =====
-- crates/forge-store/src/repos.rs: the `repos` table.
use crabforge.Prelude.{ℕ, Bool, Option}
use crabforge.Str.{Text}
use crabforge.Store.Table.{Table, by_key, upsert}

pub record RepoRecord : Type 0 where
  pub repo_id : Text
  pub owner_id : Text
  pub owner_name : Text
  pub name : Text
  pub full_name_lower : Text
  pub description : Option Text
  pub default_branch : Text
  pub visibility : Text
  pub created_at : ℕ
  pub updated_at : ℕ
  pub deleted : Bool

-- The columns that `ON CONFLICT` sets: all but the key and `created_at`.
abbrev pub merge_repo : RepoRecord → RepoRecord → RepoRecord
merge_repo old new = record new { repo_id = old.repo_id; created_at = old.created_at }

unfoldable pub upsert_repo : RepoRecord → Table RepoRecord → Table RepoRecord
unfolding upsert
upsert_repo repo t = upsert merge_repo repo.repo_id repo t

unfoldable pub repo_by_id : Text → Table RepoRecord → Option RepoRecord
unfolding by_key
repo_by_id repo_id t = by_key repo_id t
