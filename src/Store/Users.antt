-- ===== src/Store/Users.antt =====
-- crates/forge-store/src/users.rs: the `users` table.
use crabforge.Prelude.{ℕ, Option}
use crabforge.Str.{Text}
use crabforge.Store.Table.{Table, by_key, upsert}

pub record UserRecord : Type 0 where
  pub user_id : Text
  pub username : Text
  pub username_lower : Text
  pub email : Text
  pub password_hash : Text
  pub display_name : Option Text
  pub bio : Option Text
  pub state : Text
  pub created_at : ℕ
  pub updated_at : ℕ

-- The columns that `ON CONFLICT` sets: all but the key and `created_at`.
abbrev pub merge_user : UserRecord → UserRecord → UserRecord
merge_user old new = record new { user_id = old.user_id; created_at = old.created_at }

unfoldable pub upsert_user : UserRecord → Table UserRecord → Table UserRecord
unfolding upsert
upsert_user user t = upsert merge_user user.user_id user t

unfoldable pub user_by_id : Text → Table UserRecord → Option UserRecord
unfolding by_key
user_by_id user_id t = by_key user_id t
