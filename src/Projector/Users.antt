-- ===== src/Projector/Users.antt =====
-- crates/forge-projector/src/apply.rs: user events.
use crabforge.Prelude.{ℕ, none, some}
use crabforge.Str.{Text, codes}
use crabforge.Events.{UserEvent, registered, profile_updated, deactivated}
use crabforge.Store.Table.{Table}
use crabforge.Store.Users.{UserRecord, upsert_user, user_by_id}

unfoldable pub user_record : Text → Text → Text → Text → Text → ℕ → UserRecord
user_record user_id username username_lower email password_hash at = record {
  user_id = user_id;
  username = username;
  username_lower = username_lower;
  email = email;
  password_hash = password_hash;
  display_name = none;
  bio = none;
  state = codes "active";
  created_at = at;
  updated_at = at;
}

unfoldable pub apply_user_event : (ℕ → Text) → UserEvent → ℕ → Table UserRecord → Table UserRecord
unfolding user_record upsert_user user_by_id
apply_user_event uuid_text (registered user_id username username_lower email password_hash) at t =
    upsert_user (user_record (uuid_text user_id) username username_lower email password_hash at) t
apply_user_event uuid_text (profile_updated user_id display_name bio) at t =
    elim (user_by_id (uuid_text user_id) t) [
      | none ↦ t
      | some existing ↦
          upsert_user (record existing { display_name = display_name; bio = bio; updated_at = at })
            t
    ]
apply_user_event uuid_text (deactivated user_id) at t = elim (user_by_id (uuid_text user_id) t) [
  | none ↦ t
  | some existing ↦ upsert_user (record existing { state = codes "deactivated"; updated_at = at }) t
]
