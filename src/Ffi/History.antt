-- ===== src/Ffi/History.antt =====
-- The functions for C++ on conversations and messages, in rust/signal_bridge/src/lib.rs, over the
-- history of the bridge's storage.
use radix_relay.Prelude.{ℕ, Bool, Option, List, String, map}
use radix_relay.Exec.{Exec, pure, reads, ◌>>=◌, ◌>>◌}
use radix_relay.Sqlite.Storage.{SqliteApi, SqliteStorage, on_message_history}
use radix_relay.Sql.Sorting.{OrderBy}
use radix_relay.Database.{ConversationRow, MessageRow}
use radix_relay.History as History
use radix_relay.Ffi.Records.{StoredMessage, Conversation, message_out, conversation_out}

module _ {A : SqliteApi} where
  unfoldable pub get_conversations :
      OrderBy ConversationRow History.more_recent
      → Bool
      → Exec (SqliteStorage A) (List Conversation)
  get_conversations O include_archived = do
    conversations ← on_message_history (reads (λ d. History.get_conversations O d include_archived))
    pure (map conversation_out conversations)

  unfoldable pub get_conversation_messages :
      (from_utf8 : List ℕ → Option String)
      → OrderBy MessageRow (History.newer from_utf8)
      → String
      → ℕ
      → ℕ
      → Exec (SqliteStorage A) (List StoredMessage)
  get_conversation_messages from_utf8 O rdx_fingerprint limit offset = do
    messages ←
        on_message_history (
          reads (λ d. History.get_conversation_messages from_utf8 O d rdx_fingerprint limit offset))
    pure (map message_out messages)

  unfoldable pub mark_conversation_read : String → Exec (SqliteStorage A) Unit
  mark_conversation_read rdx_fingerprint = do
    on_message_history (History.mark_conversation_read rdx_fingerprint)
    pure tt

  unfoldable pub mark_conversation_read_up_to : String → ℕ → Exec (SqliteStorage A) Unit
  mark_conversation_read_up_to rdx_fingerprint up_to_timestamp = do
    on_message_history (History.mark_conversation_read_up_to rdx_fingerprint up_to_timestamp)
    pure tt

  unfoldable pub delete_message : ℕ → Exec (SqliteStorage A) Unit
  delete_message message_id = do on_message_history (History.delete_message message_id); pure tt

  unfoldable pub delete_conversation : String → Exec (SqliteStorage A) Unit
  delete_conversation rdx_fingerprint = do
    on_message_history (History.delete_conversation rdx_fingerprint)
    pure tt

  unfoldable pub get_unread_count : String → Exec (SqliteStorage A) ℕ
  get_unread_count rdx_fingerprint = do
    count ← on_message_history (reads (λ d. History.get_unread_count d rdx_fingerprint))
    pure count
