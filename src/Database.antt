-- ===== src/Database.antt =====
-- The tables `contacts`, `conversations` and `messages` that `initialize_schema` and
-- `migrate_to_v2` of rust/signal_bridge/src/sqlite_storage.rs create.
use radix_relay.Prelude.{ℕ, Bool, Option, List, String}
use radix_relay.Sql.{ℤ}

pub record ContactRow : Type 0 where
  pub rdx_fingerprint : String
  pub nostr_pubkey : String
  pub user_alias : Option String
  pub signal_identity_key : List ℕ
  pub first_seen : ℕ
  pub last_updated : ℕ

-- `unread_count` is only written as 0, as a count of rows, or one higher.
pub record ConversationRow : Type 0 where
  pub id : ℕ
  pub rdx_fingerprint : String
  pub nostr_pubkey : Option String
  pub last_message_timestamp : ℤ
  pub unread_count : ℕ
  pub archived : Bool

pub record MessageRow : Type 0 where
  pub id : ℕ
  pub conversation_id : ℕ
  pub direction : ℤ
  pub timestamp : ℤ
  pub message_type : ℤ
  pub content : List ℕ
  pub delivery_status : ℤ
  pub was_prekey_message : Bool
  pub session_established : Bool

-- `conversation_seq` and `message_seq` are the counters of AUTOINCREMENT: the highest id that was
-- ever given. `foreign_keys` is whether SQLite enforces the foreign keys, which the program leaves
-- to the default of the SQLite that it is built with.
pub record Database : Type 0 where
  pub contacts : List ContactRow
  pub conversations : List ConversationRow
  pub messages : List MessageRow
  pub conversation_seq : ℕ
  pub message_seq : ℕ
  pub foreign_keys : Bool
