-- ===== src/Store/Hooks.antt =====
-- crates/forge-store/src/hooks.rs: the `webhooks` and `webhook_deliveries` tables.
use crabforge.Prelude.{ℕ, Bool, false, ◌&&◌, ◌||◌, List, Option, none, some, any}
use crabforge.Str.{Text, codes, text_eq, strip_suffix, strip_prefix, starts_with}
use crabforge.HashMap
use crabforge.Store.Table.{Table, by_key, rows_where}

pub record WebhookRecord : Type 0 where
  pub webhook_id : Text
  pub repo_id : Text
  pub url : Text
  pub secret : Text
  pub events : List Text
  pub active : Bool
  pub created_at : ℕ
  pub updated_at : ℕ

-- `prefix_matches`
unfoldable pub prefix_matches : Text → Text → Bool
unfolding strip_suffix strip_prefix starts_with
prefix_matches pattern event_type = elim (strip_suffix (codes ".*") pattern) [
  | none ↦ false
  | some prefix ↦ elim (strip_prefix prefix event_type) [
    | none ↦ false
    | some rest ↦ starts_with (codes ".") rest
  ]
]

-- `WebhookRecord::wants`
unfoldable pub wants : WebhookRecord → Text → Bool
unfolding prefix_matches text_eq
wants hook event_type =
    hook.active
    && any (λ w. text_eq w (codes "*") || (text_eq w event_type || prefix_matches w event_type))
        hook.events

pub record DeliveryRecord : Type 0 where
  pub delivery_id : Text
  pub webhook_id : Text
  pub repo_id : Text
  pub event_type : Text
  pub event_id : Text
  pub attempt : ℕ
  pub status : Text
  pub status_code : Option ℕ
  pub error : Option Text
  pub duration_ms : Option ℕ
  pub created_at : ℕ

pub record HookTables : Type 0 where
  pub webhooks : Table WebhookRecord
  pub deliveries : Table DeliveryRecord

-- `HookStore::for_repo`
unfoldable pub for_repo_hooks : Text → HookTables → List WebhookRecord
unfolding rows_where text_eq
for_repo_hooks repo_id t = rows_where (λ hook. text_eq hook.repo_id repo_id) t.webhooks

-- `HookStore::by_id`
unfoldable pub hook_by_id : Text → HookTables → Option WebhookRecord
unfolding by_key
hook_by_id webhook_id t = by_key webhook_id t.webhooks

-- `HookStore::record_attempt`: an insertion that fails if the primary key is there.
unfoldable pub record_attempt : DeliveryRecord → HookTables → Option HookTables
unfolding HashMap.get HashMap.insert
record_attempt delivery t = elim (HashMap.get delivery.delivery_id t.deliveries) [
  | some _ ↦ none
  | none ↦
      some (record t { deliveries = HashMap.insert delivery.delivery_id delivery t.deliveries })
]
