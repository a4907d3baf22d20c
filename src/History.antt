-- ===== src/History.antt =====
-- rust/signal_bridge/src/message_history.rs, over the tables that
-- rust/signal_bridge/src/sqlite_storage.rs creates. Each method locks the connection for each of
-- its statements, and nothing else runs between them. A path `Err(e) => Err(e.into())` for a failed
-- query is not reached, as queries do not fail here.
pub mod Types
pub mod Invariant
pub mod Peers
pub mod Opening
mod Inserting
pub mod Storing
pub mod Keeping
pub mod Reading
pub mod Marking
use radix_relay.Prelude.{
  ℕ, ◌+◌, ◌%◌, Bool, true, false, not, ◌&&◌, Option, none, some, List, [], ◌∷◌, ◌++◌, map, String,
  if◌then◌else◌, ◌==◌, nat_eq, string_eq, is_some,
}
use radix_relay.Exec.{
  Exec, Outcome, Error, ok, err, database, message_not_found, pure, raise, gets, ◌>>=◌, ◌>>◌,
  u32_mod,
}
use radix_relay.Sql.{ℤ, pos, as_i64, as_u64, gtb, is_zero}
use radix_relay.Sql.Tables.{select, query_row, update, delete, count}
use radix_relay.Sql.Sorting.{page, OrderBy}
use radix_relay.Database.{ContactRow, ConversationRow, MessageRow, Database}
use Types.{
  MessageDirection, incoming, outgoing, MessageType, text, DeliveryStatus, pending, direction_code,
  type_code, status_code, direction_from, type_from, status_from, StoredMessage, Conversation,
}

-- `WHERE rdx_fingerprint = ?`, on contacts and on conversations, and `WHERE id = ?`.
abbrev pub of_contact : String → ContactRow → Bool
of_contact fp c = c.rdx_fingerprint == fp

abbrev pub of_peer : String → ConversationRow → Bool
of_peer fp c = c.rdx_fingerprint == fp

abbrev pub has_id : ℕ → ConversationRow → Bool
has_id i c = c.id == i

abbrev pub of_conversation : ℕ → MessageRow → Bool
of_conversation i m = m.conversation_id == i

abbrev pub is_message : ℕ → MessageRow → Bool
is_message i m = m.id == i

abbrev pub contact_pubkey : Option ContactRow → Option String
contact_pubkey none = none
contact_pubkey (some c) = some c.nostr_pubkey

-- `INSERT INTO conversations (rdx_fingerprint, nostr_pubkey, last_message_timestamp)`, whose foreign
-- key is the contact.
unfoldable pub insert_conversation : String → Option String → Exec Database ℕ
insert_conversation fp nostr_pubkey s =
    if s.foreign_keys && not (is_some (query_row (of_contact fp) s.contacts))
    then (err database, s)
    else (
      ok (s.conversation_seq + 1),
      record s {
        conversations =
            s.conversations
            ++ record {
              id = s.conversation_seq + 1;
              rdx_fingerprint = fp;
              nostr_pubkey = nostr_pubkey;
              last_message_timestamp = pos 0;
              unread_count = 0;
              archived = false;
            }
              ∷ [];
        conversation_seq = s.conversation_seq + 1;
      },
    )

-- `INSERT INTO messages`, whose foreign key is the conversation; the row's own id is not read.
unfoldable pub insert_message : MessageRow → Exec Database ℕ
insert_message m s =
    if s.foreign_keys && not (is_some (query_row (has_id m.conversation_id) s.conversations))
    then (err database, s)
    else (
      ok (s.message_seq + 1),
      record s {
        messages = s.messages ++ record m { id = s.message_seq + 1 } ∷ [];
        message_seq = s.message_seq + 1;
      },
    )

unfoldable pub get_or_create_conversation : String → Exec Database ℕ
unfolding insert_conversation
get_or_create_conversation rdx_fingerprint s =
    elim (query_row (of_peer rdx_fingerprint) s.conversations) [
      | some c ↦ (ok c.id, s)
      | none ↦
          insert_conversation rdx_fingerprint
            (contact_pubkey (query_row (of_contact rdx_fingerprint) s.contacts)) s
    ]

abbrev pub touch : ℕ → ConversationRow → ConversationRow
touch timestamp c = record c { last_message_timestamp = as_i64 timestamp }

abbrev pub touch_unread : ℕ → ConversationRow → ConversationRow
touch_unread timestamp c = record c {
  last_message_timestamp = as_i64 timestamp;
  unread_count = c.unread_count + 1;
}

unfoldable pub update_conversation : ℕ → ℕ → Bool → Exec Database Unit
update_conversation conversation_id timestamp increment_unread s =
    let set = if increment_unread then touch_unread timestamp else touch timestamp in
    (ok tt, record s { conversations = update (has_id conversation_id) set s.conversations })

unfoldable pub store_incoming_message : String → ℕ → List ℕ → Bool → Bool → Exec Database ℕ
unfolding get_or_create_conversation insert_message update_conversation
store_incoming_message rdx_fingerprint timestamp plaintext was_prekey established = do
  conversation_id ← get_or_create_conversation rdx_fingerprint
  message_id ← insert_message (record {
    id = 0;
    conversation_id = conversation_id;
    direction = direction_code incoming;
    timestamp = as_i64 timestamp;
    message_type = type_code text;
    content = plaintext;
    delivery_status = pos 0;
    was_prekey_message = was_prekey;
    session_established = established;
  })
  update_conversation conversation_id timestamp true
  pure message_id

unfoldable pub store_outgoing_message : String → ℕ → List ℕ → Exec Database ℕ
unfolding get_or_create_conversation insert_message update_conversation
store_outgoing_message rdx_fingerprint timestamp plaintext = do
  conversation_id ← get_or_create_conversation rdx_fingerprint
  message_id ← insert_message (record {
    id = 0;
    conversation_id = conversation_id;
    direction = direction_code outgoing;
    timestamp = as_i64 timestamp;
    message_type = type_code text;
    content = plaintext;
    delivery_status = status_code pending;
    was_prekey_message = false;
    session_established = false;
  })
  update_conversation conversation_id timestamp false
  pure message_id

unfoldable pub update_delivery_status : ℕ → DeliveryStatus → Exec Database Unit
update_delivery_status message_id status s = (
  ok tt,
  record s {
    messages =
        update (is_message message_id) (λ m. record m { delivery_status = status_code status })
          s.messages;
  },
)

-- `unwrap_or_default()`
abbrev pub utf8_or_default : Option String → String
utf8_or_default none = ""
utf8_or_default (some t) = t

-- `String::from_utf8`, of the standard library, is a parameter.
module _ (from_utf8 : List ℕ → Option String) where
  -- The row mapper of both message queries.
  unfoldable pub read_message : MessageRow → StoredMessage
  read_message m = record {
    id = m.id;
    conversation_id = m.conversation_id;
    direction = direction_from m.direction;
    timestamp = as_u64 m.timestamp;
    message_type = type_from m.message_type;
    content = utf8_or_default (from_utf8 m.content);
    delivery_status = status_from m.delivery_status;
    was_prekey_message = m.was_prekey_message;
    session_established = m.session_established;
  }

  unfoldable pub get_message : Database → ℕ → Outcome StoredMessage
  get_message s message_id = elim (query_row (is_message message_id) s.messages) [
    | some m ↦ ok (read_message m)
    | none ↦ err (message_not_found message_id)
  ]

  -- `ORDER BY timestamp DESC`
  abbrev pub newer : MessageRow → MessageRow → Bool
  newer m n = gtb m.timestamp n.timestamp

  unfoldable pub get_conversation_messages :
      OrderBy MessageRow newer → Database → String → ℕ → ℕ → Outcome (List StoredMessage)
  get_conversation_messages O s rdx_fingerprint limit offset =
      elim (query_row (of_peer rdx_fingerprint) s.conversations) [
        | some c ↦ ok (
            map read_message
              (page limit offset (O.sort (select (of_conversation c.id) s.messages))))
        | none ↦ ok []
      ]

unfoldable pub read_conversation : ConversationRow → Conversation
read_conversation c = record {
  id = c.id;
  rdx_fingerprint = c.rdx_fingerprint;
  last_message_timestamp = as_u64 c.last_message_timestamp;
  unread_count = c.unread_count % u32_mod;
  archived = c.archived;
}

-- `ORDER BY last_message_timestamp DESC`
abbrev pub more_recent : ConversationRow → ConversationRow → Bool
more_recent c d = gtb c.last_message_timestamp d.last_message_timestamp

unfoldable pub get_conversations :
    OrderBy ConversationRow more_recent → Database → Bool → Outcome (List Conversation)
get_conversations O s include_archived =
    let rows =
      if include_archived then s.conversations else select (λ c. not c.archived) s.conversations in
    ok (map read_conversation (O.sort rows))

unfoldable pub get_unread_count : Database → String → Outcome ℕ
get_unread_count s rdx_fingerprint = elim (query_row (of_peer rdx_fingerprint) s.conversations) [
  | some c ↦ ok (c.unread_count % u32_mod)
  | none ↦ ok 0
]

unfoldable pub mark_conversation_read : String → Exec Database Unit
mark_conversation_read rdx_fingerprint s = (
  ok tt,
  record s {
    conversations =
        update (of_peer rdx_fingerprint) (λ c. record c { unread_count = 0 }) s.conversations;
  },
)

-- `direction = 0 AND timestamp > ?`, in a conversation.
abbrev pub is_unread_after : ℕ → ℕ → MessageRow → Bool
is_unread_after conversation_id up_to m =
    m.conversation_id == conversation_id && is_zero m.direction && gtb m.timestamp (as_i64 up_to)

unfoldable pub mark_conversation_read_up_to : String → ℕ → Exec Database Unit
mark_conversation_read_up_to rdx_fingerprint up_to_timestamp s =
    elim (query_row (of_peer rdx_fingerprint) s.conversations) [
      | some c ↦
          let unread = count (is_unread_after c.id up_to_timestamp) s.messages in
          (
            ok tt,
            record s {
              conversations =
                  update (has_id c.id) (λ r. record r { unread_count = unread }) s.conversations;
            },
          )
      | none ↦ (err database, s)
    ]

unfoldable pub delete_message : ℕ → Exec Database Unit
delete_message message_id s =
    (ok tt, record s { messages = delete (is_message message_id) s.messages })

-- The messages of a conversation go before it, so the cascade finds none.
unfoldable pub delete_conversation : String → Exec Database Unit
delete_conversation rdx_fingerprint s = elim (query_row (of_peer rdx_fingerprint) s.conversations) [
  | some c ↦ (
    ok tt,
    record s {
      messages = delete (of_conversation c.id) s.messages;
      conversations = delete (has_id c.id) s.conversations;
    },
  )
  | none ↦ (ok tt, s)
]
