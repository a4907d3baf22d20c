-- ===== src/History/Keeping.antt =====
-- The invariant of the message tables under the calls of message_history.rs.
use radix_relay.Prelude.{
  ℕ, ◌<◌, ◌^◌, ◌%◌, ◌≡◌, refl, inl, inr, Bool, false, none, List, [], ◌∷◌, String, ◌==◌, nat_eq,
  string_eq, Bool-cases, Option-cases, arith,
}
use radix_relay.Exec.{err, database, u64_mod}
use radix_relay.Sql.Tables.{
  query_row, delete, All, All-delete, All-update, All-map, query_row-delete,
}
use radix_relay.Sql.Unique.{IsUnique-update, IsUnique-delete}
use radix_relay.Database.{ConversationRow, MessageRow, Database}
use radix_relay.History.Types.{DeliveryStatus}
use radix_relay.History.{
  of_peer, has_id, of_conversation, is_message, store_incoming_message, store_outgoing_message,
  update_delivery_status, mark_conversation_read, mark_conversation_read_up_to, delete_message,
  delete_conversation,
}
use radix_relay.History.Opening.{may_open, get_or_create_conversation-refused}
use radix_relay.History.Storing.{store_incoming_message-IsStored, store_outgoing_message-IsStored}
use radix_relay.History.Invariant.{IsValid, IsConversation, update-IsValid}

-- Deleting messages.
delete_messages-IsValid :
    (s : Database) (p : MessageRow → Bool)
    → IsValid s
    → IsValid (record s { messages = delete p s.messages })
delete_messages-IsValid s p v = record {
  unique_ids = v.unique_ids;
  unique_peers = v.unique_peers;
  ids_counted = v.ids_counted;
  unique_messages = IsUnique-delete (λ (m : MessageRow). m.id) p s.messages v.unique_messages;
  messages_counted = All-delete _ p s.messages v.messages_counted;
  messages_placed = All-delete _ p s.messages v.messages_placed;
}

-- What is left of the messages after a deletion fails its test.
All-deleted : (p : MessageRow → Bool) (ms : List MessageRow) → All (λ m. p m ≡ false) (delete p ms)
unfolding delete
All-deleted p [] = tt
All-deleted p (m ∷ ms) = elim (Bool-cases (p m)) [
  | inl e ↦ rw e (All-deleted p ms)
  | inr e ↦ rw e (e, All-deleted p ms)
]

All-both :
    (P Q : MessageRow → Type 0) (ms : List MessageRow)
    → All P ms
    → All Q ms
    → All (λ m. P m × Q m) ms
All-both P Q [] h k = tt
All-both P Q (m ∷ ms) h k = ((h.0, k.0), All-both P Q ms h.1 k.1)

IsConversation-delete :
    (cs : List ConversationRow) (i j : ℕ)
    → (j == i) ≡ false
    → IsConversation cs j
    → IsConversation (delete (has_id i) cs) j
IsConversation-delete cs i j ne h =
    rw (query_row-delete (has_id i) (has_id j) cs (λ c e. ground arith)) h

-- A conversation is deleted after its messages.
delete_both-IsValid :
    (s : Database) (i : ℕ)
    → IsValid s
    → IsValid (record s {
      messages = delete (of_conversation i) s.messages;
      conversations = delete (has_id i) s.conversations;
    })
delete_both-IsValid s i v =
    let placed = All-delete _ (of_conversation i) s.messages v.messages_placed in
    record {
      unique_ids =
          IsUnique-delete (λ (c : ConversationRow). c.id) (has_id i) s.conversations v.unique_ids;
      unique_peers =
          IsUnique-delete (λ (c : ConversationRow). c.rdx_fingerprint) (has_id i) s.conversations
            v.unique_peers;
      ids_counted = All-delete _ (has_id i) s.conversations v.ids_counted;
      unique_messages =
          IsUnique-delete (λ (m : MessageRow). m.id) (of_conversation i) s.messages
            v.unique_messages;
      messages_counted = All-delete _ (of_conversation i) s.messages v.messages_counted;
      messages_placed =
          All-map _ _ (delete (of_conversation i) s.messages)
            (λ m h. IsConversation-delete s.conversations i m.conversation_id h.1 h.0)
            (All-both _ _ (delete (of_conversation i) s.messages) placed
              (All-deleted (of_conversation i) s.messages));
    }

pub delete_conversation-IsValid :
    (fp : String) (s : Database) → IsValid s → IsValid (delete_conversation fp s).1
unfolding delete_conversation
delete_conversation-IsValid fp s v = elim (Option-cases (query_row (of_peer fp) s.conversations)) [
  | inl absent ↦ rw (absent, delete_conversation) v
  | inr (c, e) ↦ rw (e, delete_conversation) (delete_both-IsValid s c.id v)
]

mark_conversation_read_up_to-IsValid :
    (fp : String) (t : ℕ) (s : Database)
    → IsValid s
    → IsValid (mark_conversation_read_up_to fp t s).1
unfolding mark_conversation_read_up_to
mark_conversation_read_up_to-IsValid fp t s v =
    elim (Option-cases (query_row (of_peer fp) s.conversations)) [
      | inl absent ↦ rw (absent, mark_conversation_read_up_to) v
      | inr (c, e) ↦
          rw (e, mark_conversation_read_up_to)
            (update-IsValid s (has_id c.id) _ (λ r. refl) (λ r. refl) v)
    ]

mark_conversation_read-IsValid :
    (fp : String) (s : Database) → IsValid s → IsValid (mark_conversation_read fp s).1
unfolding mark_conversation_read
mark_conversation_read-IsValid fp s v = update-IsValid s (of_peer fp) _ (λ r. refl) (λ r. refl) v

update_delivery_status-IsValid :
    (i : ℕ) (d : DeliveryStatus) (s : Database)
    → IsValid s
    → IsValid (update_delivery_status i d s).1
unfolding update_delivery_status
update_delivery_status-IsValid i d s v = record {
  unique_ids = v.unique_ids;
  unique_peers = v.unique_peers;
  ids_counted = v.ids_counted;
  unique_messages =
      IsUnique-update (λ (m : MessageRow). m.id) (is_message i) _ s.messages (λ m. refl)
        v.unique_messages;
  messages_counted = All-update _ (is_message i) _ s.messages (λ m h. h) v.messages_counted;
  messages_placed = All-update _ (is_message i) _ s.messages (λ m h. h) v.messages_placed;
}

-- Storing a message for a peer with whom no conversation may be opened fails with a database error
-- and writes nothing.
store_message_refused :
    (fp : String) (ts : ℕ) (plaintext : List ℕ) (k g : Bool) (s : Database)
    → may_open fp s ≡ false
    → (store_incoming_message fp ts plaintext k g s ≡ (err database, s))
      × (store_outgoing_message fp ts plaintext s ≡ (err database, s))
unfolding store_incoming_message store_outgoing_message
store_message_refused fp ts plaintext k g s h =
    let e = get_or_create_conversation-refused fp s h in (rw e, rw e)

-- Storing a message keeps the tables valid, whether a conversation may be opened or not.
pub store_incoming-IsValid :
    (fp : String) (ts : ℕ) (plaintext : List ℕ) (k g : Bool) (s : Database)
    → ts < 2 ^ 64
    → IsValid s
    → IsValid (store_incoming_message fp ts plaintext k g s).1
store_incoming-IsValid fp ts plaintext k g s fits v = elim (Bool-cases (may_open fp s)) [
  | inl may ↦
      (store_incoming_message-IsStored (λ _. none) fp ts plaintext k g s fits v may).1.1.valid
  | inr refused ↦ rw ((store_message_refused fp ts plaintext k g s refused).0) v
]

pub store_outgoing-IsValid :
    (fp : String) (ts : ℕ) (plaintext : List ℕ) (s : Database)
    → ts < 2 ^ 64
    → IsValid s
    → IsValid (store_outgoing_message fp ts plaintext s).1
store_outgoing-IsValid fp ts plaintext s fits v = elim (Bool-cases (may_open fp s)) [
  | inl may ↦ (store_outgoing_message-IsStored (λ _. none) fp ts plaintext s fits v may).1.1.valid
  | inr refused ↦ rw ((store_message_refused fp ts plaintext false false s refused).1) v
]

-- The calls that change the tables.
pub data Call : Type 0 where
  store_incoming : String → ℕ → List ℕ → Bool → Bool → Call
  store_outgoing : String → ℕ → List ℕ → Call
  set_status : ℕ → DeliveryStatus → Call
  mark_read : String → Call
  mark_read_up_to : String → ℕ → Call
  remove_message : ℕ → Call
  remove_conversation : String → Call

-- The tables after a call, whether it succeeds or not.
unfoldable pub after_call : Call → Database → Database
after_call (store_incoming fp ts plaintext k g) s =
    (store_incoming_message fp (ts % u64_mod) plaintext k g s).1
after_call (store_outgoing fp ts plaintext) s =
    (store_outgoing_message fp (ts % u64_mod) plaintext s).1
after_call (set_status i d) s = (update_delivery_status i d s).1
after_call (mark_read fp) s = (mark_conversation_read fp s).1
after_call (mark_read_up_to fp t) s = (mark_conversation_read_up_to fp t s).1
after_call (remove_message i) s = (delete_message i s).1
after_call (remove_conversation fp) s = (delete_conversation fp s).1

after_calls : List Call → Database → Database
after_calls [] s = s
after_calls (c ∷ cs) s = after_calls cs (after_call c s)

pub after_call-IsValid : (c : Call) (s : Database) → IsValid s → IsValid (after_call c s)
unfolding after_call delete_message
after_call-IsValid (store_incoming fp ts plaintext k g) s v =
    store_incoming-IsValid fp (ts % u64_mod) plaintext k g s (omega arith) v
after_call-IsValid (store_outgoing fp ts plaintext) s v =
    store_outgoing-IsValid fp (ts % u64_mod) plaintext s (omega arith) v
after_call-IsValid (set_status i d) s v = update_delivery_status-IsValid i d s v
after_call-IsValid (mark_read fp) s v = mark_conversation_read-IsValid fp s v
after_call-IsValid (mark_read_up_to fp t) s v = mark_conversation_read_up_to-IsValid fp t s v
after_call-IsValid (remove_message i) s v = delete_messages-IsValid s (is_message i) v
after_call-IsValid (remove_conversation fp) s v = delete_conversation-IsValid fp s v

-- Whatever calls are made, with whatever arguments and whether they succeed or fail, tables that
-- are valid stay valid.
after_calls-IsValid : (calls : List Call) (s : Database) → IsValid s → IsValid (after_calls calls s)
unfolding after_calls
after_calls-IsValid [] s v = v
after_calls-IsValid (c ∷ cs) s v =
    after_calls-IsValid cs (after_call c s) (after_call-IsValid c s v)
