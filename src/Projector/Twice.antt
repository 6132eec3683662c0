-- ===== src/Projector/Twice.antt =====
-- Events that arrive twice: users, repositories and pull requests.
pub mod Issues
pub mod Runs
pub mod Records
pub mod Pulls
use crabforge.Prelude.{
  ◌≡◌, ◌≢◌, refl, ap, ℕ, Bool, true, false, inl, inr, Bool-cases, arith, if◌then◌else◌, not,
}
use crabforge.Str.{Text, codes, text_eq}
use crabforge.Events.{
  UserEvent, RepoEvent, registered, profile_updated, deactivated, created, renamed,
  description_changed, visibility_changed, default_branch_changed, collaborator_added,
  collaborator_removed, deleted,
}
use crabforge.HashMap
use crabforge.Store.Table.{Table, by_key}
use crabforge.Store.Table.Laws.{rewrite, rewrite-rewrite, upsert-upsert}
use crabforge.Store.Users.{UserRecord, merge_user, upsert_user, user_by_id}
use crabforge.Store.Repos.{RepoRecord, merge_repo, upsert_repo, repo_by_id}
use crabforge.Projector.Users.{user_record, apply_user_event}
use crabforge.Projector.Repos.{visibility_text, update_repo, apply_repo_event}

-- A user event that is applied twice at one time leaves the table that it left the first time.
pub apply_user_event_twice :
    (uuid_text : ℕ → Text) (event : UserEvent) (at : ℕ) (t : Table UserRecord)
    → apply_user_event uuid_text event at (apply_user_event uuid_text event at t)
      ≡ apply_user_event uuid_text event at t
unfolding apply_user_event upsert_user user_by_id by_key rewrite
apply_user_event_twice uuid_text (registered user_id username username_lower email password_hash) at
      t =
    upsert-upsert merge_user _
      (user_record (uuid_text user_id) username username_lower email password_hash at) t refl
      (λ old. refl)
apply_user_event_twice uuid_text (profile_updated user_id display_name bio) at t =
    rewrite-rewrite merge_user (λ u. u.user_id) (uuid_text user_id)
      (λ u. record u { display_name = display_name; bio = bio; updated_at = at }) t (λ row. refl)
      (λ row. refl) (λ row. refl) (λ old row. refl)
apply_user_event_twice uuid_text (deactivated user_id) at t =
    rewrite-rewrite merge_user (λ u. u.user_id) (uuid_text user_id)
      (λ u. record u { state = codes "deactivated"; updated_at = at }) t (λ row. refl) (λ row. refl)
      (λ row. refl) (λ old row. refl)

update_repo_twice :
    (k : Text) (at : ℕ) (mutate : RepoRecord → RepoRecord) (t : Table RepoRecord)
    → let change : RepoRecord → RepoRecord = λ row. record (mutate row) { updated_at = at } in
      ((row : RepoRecord) → (change (merge_repo row (change row))).repo_id ≡ (change row).repo_id)
      → ((row : RepoRecord)
          → merge_repo (merge_repo row (change row)) (change (merge_repo row (change row)))
            ≡ merge_repo row (change row))
      → update_repo k at mutate (update_repo k at mutate t) ≡ update_repo k at mutate t
unfolding update_repo upsert_repo repo_by_id by_key rewrite
update_repo_twice k at mutate t keeps stable =
    rewrite-rewrite merge_repo (λ r. r.repo_id) k (λ row. record (mutate row) { updated_at = at }) t
      keeps stable (λ row. refl) (λ old row. refl)

-- A repository event that is applied twice at one time leaves the table that it left the first
-- time.
pub apply_repo_event_twice :
    (uuid_text : ℕ → Text) (event : RepoEvent) (at : ℕ) (t : Table RepoRecord)
    → apply_repo_event uuid_text event at (apply_repo_event uuid_text event at t)
      ≡ apply_repo_event uuid_text event at t
unfolding apply_repo_event upsert_repo
apply_repo_event_twice uuid_text (created _ _ _ _ _ _ _ _) at t =
    upsert-upsert merge_repo _ _ t refl (λ old. refl)
apply_repo_event_twice uuid_text (renamed repo_id name full_name_lower) at t =
    update_repo_twice (uuid_text repo_id) at
      (λ row. record row { name = name; full_name_lower = full_name_lower }) t (λ row. refl)
      (λ row. refl)
apply_repo_event_twice uuid_text (description_changed repo_id description) at t =
    update_repo_twice (uuid_text repo_id) at (λ row. record row { description = description }) t
      (λ row. refl) (λ row. refl)
apply_repo_event_twice uuid_text (visibility_changed repo_id visibility) at t =
    update_repo_twice (uuid_text repo_id) at
      (λ row. record row { visibility = visibility_text visibility }) t (λ row. refl) (λ row. refl)
apply_repo_event_twice uuid_text (default_branch_changed repo_id default_branch) at t =
    update_repo_twice (uuid_text repo_id) at (λ row. record row { default_branch = default_branch })
      t (λ row. refl) (λ row. refl)
apply_repo_event_twice uuid_text (deleted repo_id) at t =
    update_repo_twice (uuid_text repo_id) at (λ row. record row { deleted = true }) t (λ row. refl)
      (λ row. refl)
apply_repo_event_twice uuid_text (collaborator_added _ _ _ _) at t = refl
apply_repo_event_twice uuid_text (collaborator_removed _ _) at t = refl
