-- ===== src/Tests/Messages.antt =====
-- A database with one contact and one conversation of two messages.
use radix_relay.Prelude.{
  ℕ, ◌%◌, ◌≤◌, ◌≡◌, ◌≢◌, refl, true, false, Option, none, some, List, [], ◌∷◌, map, length, String,
  nat_eq, string_eq, arith,
}
use radix_relay.Exec.{ok, u32_mod}
use radix_relay.Sql.{pos, gtb_asym, gtb_tran}
use radix_relay.Sql.Tables.{query_row, count, All}
use radix_relay.Sql.Sorting.{IsOrdered, OrderBy, order_by, stable_laws}
use radix_relay.Database.{ContactRow, ConversationRow, MessageRow, Database}
use radix_relay.History.Types.{incoming, outgoing}
use radix_relay.History.{
  of_peer, has_id, of_conversation, newer, read_message, store_incoming_message,
  store_outgoing_message, get_conversation_messages, get_unread_count, mark_conversation_read_up_to,
  delete_conversation,
}
use radix_relay.History.Invariant.{IsValid}
use radix_relay.History.Storing.{
  IsStored, store_incoming_message-IsStored, store_outgoing_message-IsStored,
}
use radix_relay.History.Marking.{Unread, mark_conversation_read_up_to_counts}
use radix_relay.History.Reading.{get_conversation_messages-IsOrdered, delete_conversation_removes}

abbrev pub alice : ContactRow
alice = record {
  rdx_fingerprint = "RDX:a";
  nostr_pubkey = "ab";
  user_alias = some "Alice";
  signal_identity_key = [];
  first_seen = 5;
  last_updated = 5;
}

abbrev pub with_alice : ConversationRow
with_alice = record {
  id = 1;
  rdx_fingerprint = "RDX:a";
  nostr_pubkey = some "ab";
  last_message_timestamp = pos 20;
  unread_count = 2;
  archived = false;
}

abbrev message : ℕ → ℕ → MessageRow
message i ts = record {
  id = i;
  conversation_id = 1;
  direction = pos 0;
  timestamp = pos ts;
  message_type = pos 0;
  content = [];
  delivery_status = pos 0;
  was_prekey_message = false;
  session_established = false;
}

abbrev pub two_messages : Database
two_messages = record {
  contacts = alice ∷ [];
  conversations = with_alice ∷ [];
  messages = message 1 10 ∷ message 2 20 ∷ [];
  conversation_seq = 1;
  message_seq = 2;
  foreign_keys = true;
}

pub two_messages-IsValid : IsValid two_messages
unfolding query_row
two_messages-IsValid = record {
  unique_ids = (tt, tt);
  unique_peers = (tt, tt);
  ids_counted = (omega arith, tt);
  unique_messages = ((λ e. omega arith, tt), (tt, tt));
  messages_counted = (omega arith, (omega arith, tt));
  messages_placed = (refl, (refl, tt));
}

-- No bytes are UTF-8, for what follows.
abbrev no_utf8 : List ℕ → Option String
no_utf8 bytes = none

abbrev by_time : OrderBy MessageRow (newer no_utf8)
by_time = record { sort = order_by (newer no_utf8) }

pub two_messages-found : query_row (of_peer "RDX:a") two_messages.conversations ≡ some with_alice
unfolding query_row
two_messages-found = refl

store_incoming_message-IsStored_example :
    let (r, s') = store_incoming_message "RDX:a" 30 [] false false two_messages in
    (r ≡ ok 3)
    × ((c : ConversationRow) × IsStored no_utf8 "RDX:a" 30 [] incoming false false 1 two_messages s'
          c)
unfolding query_row
store_incoming_message-IsStored_example =
    store_incoming_message-IsStored no_utf8 "RDX:a" 30 [] false false two_messages (omega arith)
      two_messages-IsValid refl

store_outgoing_message-IsStored_example :
    let (r, s') = store_outgoing_message "RDX:a" 30 [] two_messages in
    (r ≡ ok 3)
    × ((c : ConversationRow) × IsStored no_utf8 "RDX:a" 30 [] outgoing false false 0 two_messages s'
          c)
unfolding query_row
store_outgoing_message-IsStored_example =
    store_outgoing_message-IsStored no_utf8 "RDX:a" 30 [] two_messages (omega arith)
      two_messages-IsValid refl

get_conversation_messages-IsOrdered_example :
    (rows : List MessageRow) × (get_conversation_messages no_utf8 by_time two_messages "RDX:a" 1 0
      ≡ ok (map (read_message no_utf8) rows))
    × (length rows ≤ 1)
    × All (λ m. of_conversation 1 m ≡ true) rows
    × IsOrdered (newer no_utf8) rows
get_conversation_messages-IsOrdered_example =
    get_conversation_messages-IsOrdered no_utf8 by_time two_messages "RDX:a" 1 0 {c = with_alice}
      (stable_laws (newer no_utf8) (λ m n. gtb_asym m.timestamp n.timestamp)
        (λ m n k. gtb_tran m.timestamp n.timestamp k.timestamp))
      two_messages-found

mark_conversation_read_up_to_counts_example :
    let (r, s') = mark_conversation_read_up_to "RDX:a" 10 two_messages in
    (r ≡ ok tt)
    × ((n : ℕ) × Unread 1 10 two_messages.messages n
        × (get_unread_count s' "RDX:a" ≡ ok (n % u32_mod)))
    × (s'.messages ≡ two_messages.messages)
    × ((gp : String) → gp ≢ "RDX:a" → get_unread_count s' gp ≡ get_unread_count two_messages gp)
mark_conversation_read_up_to_counts_example =
    mark_conversation_read_up_to_counts "RDX:a" 10 two_messages {c = with_alice}
      two_messages-IsValid two_messages-found

delete_conversation_removes_example :
    let (r, s') = delete_conversation "RDX:a" two_messages in
    (r ≡ ok tt)
    × (query_row (of_peer "RDX:a") s'.conversations ≡ none)
    × (query_row (has_id 1) s'.conversations ≡ none)
    × (count (of_conversation 1) s'.messages ≡ 0)
    × (get_unread_count s' "RDX:a" ≡ ok 0)
    × ((limit offset : ℕ)
        → get_conversation_messages no_utf8 by_time s' "RDX:a" limit offset ≡ ok [])
    × ((gp : String) (limit offset : ℕ)
        → gp ≢ "RDX:a"
        → (query_row (of_peer gp) s'.conversations
            ≡ query_row (of_peer gp) two_messages.conversations)
          × (get_conversation_messages no_utf8 by_time s' gp limit offset
              ≡ get_conversation_messages no_utf8 by_time two_messages gp limit offset)
          × (get_unread_count s' gp ≡ get_unread_count two_messages gp))
delete_conversation_removes_example =
    delete_conversation_removes no_utf8 by_time "RDX:a" two_messages {c = with_alice}
      two_messages-IsValid two_messages-found
