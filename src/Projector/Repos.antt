-- ===== src/Projector/Repos.antt =====
-- crates/forge-projector/src/apply.rs: repository events.
use crabforge.Prelude.{ℕ, true, false, none, some, []}
use crabforge.Str.{Text, codes}
use crabforge.Events.{
  Visibility, public, private, RepoEvent, created, renamed, description_changed, visibility_changed,
  default_branch_changed, collaborator_added, collaborator_removed, deleted,
}
use crabforge.Store.Table.{Table}
use crabforge.Store.Repos.{RepoRecord, upsert_repo, repo_by_id}

-- `Visibility::to_string`
unfoldable pub visibility_text : Visibility → Text
visibility_text public = codes "public"
visibility_text private = codes "private"

unfoldable pub repo_record_defaults : Text → ℕ → RepoRecord
repo_record_defaults repo_id at = record {
  repo_id = repo_id;
  owner_id = [];
  owner_name = [];
  name = [];
  full_name_lower = [];
  description = none;
  default_branch = codes "main";
  visibility = codes "public";
  created_at = at;
  updated_at = at;
  deleted = false;
}

unfoldable pub update_repo :
    Text → ℕ → (RepoRecord → RepoRecord) → Table RepoRecord → Table RepoRecord
unfolding repo_by_id upsert_repo
update_repo repo_id at mutate t = elim (repo_by_id repo_id t) [
  | none ↦ t
  | some row ↦ upsert_repo (record (mutate row) { updated_at = at }) t
]

unfoldable pub apply_repo_event : (ℕ → Text) → RepoEvent → ℕ → Table RepoRecord → Table RepoRecord
unfolding update_repo upsert_repo repo_record_defaults visibility_text
apply_repo_event uuid_text
      (created repo_id owner_id owner_name name full_name_lower description default_branch
        visibility)
      at t =
    upsert_repo
      (record (repo_record_defaults (uuid_text repo_id) at) {
        owner_id = uuid_text owner_id;
        owner_name = owner_name;
        name = name;
        full_name_lower = full_name_lower;
        description = description;
        default_branch = default_branch;
        visibility = visibility_text visibility;
      })
      t
apply_repo_event uuid_text (renamed repo_id name full_name_lower) at t =
    update_repo (uuid_text repo_id) at
      (λ row. record row { name = name; full_name_lower = full_name_lower }) t
apply_repo_event uuid_text (description_changed repo_id description) at t =
    update_repo (uuid_text repo_id) at (λ row. record row { description = description }) t
apply_repo_event uuid_text (visibility_changed repo_id visibility) at t =
    update_repo (uuid_text repo_id) at
      (λ row. record row { visibility = visibility_text visibility }) t
apply_repo_event uuid_text (default_branch_changed repo_id default_branch) at t =
    update_repo (uuid_text repo_id) at (λ row. record row { default_branch = default_branch }) t
apply_repo_event uuid_text (deleted repo_id) at t =
    update_repo (uuid_text repo_id) at (λ row. record row { deleted = true }) t
apply_repo_event uuid_text (collaborator_added repo_id user_id username role) at t = t
apply_repo_event uuid_text (collaborator_removed repo_id user_id) at t = t
