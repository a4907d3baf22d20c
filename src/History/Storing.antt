-- ===== src/History/Storing.antt =====
-- The two storing methods of message_history.rs.
use radix_relay.Prelude.{
  ℕ, ◌+◌, ◌≤◌, ◌<◌, ◌^◌, ◌≡◌, ◌≢◌, ap, sym, ◌∙◌, Bool, true, false, Option, some, List, String,
  nat_eq, string_eq,
}
use radix_relay.Exec.{ok}
use radix_relay.Sql.{pos, as_i64, as_u64-as_i64}
use radix_relay.Sql.Tables.{query_row}
use radix_relay.Database.{ConversationRow, MessageRow, Database}
use radix_relay.History.Types.{
  MessageDirection, incoming, outgoing, text, pending, direction_code, type_from, status_from,
  StoredMessage, codes_roundtrip,
}
use radix_relay.History.{
  of_peer, has_id, is_message, get_or_create_conversation, store_incoming_message,
  store_outgoing_message, read_message, get_message, utf8_or_default,
}
use radix_relay.History.Invariant.{IsValid, update-IsValid}
use radix_relay.History.Peers.{update_self, update_other}
use radix_relay.History.Opening.{
  unread_of, MayOpen, IsOpened, IsOpened-IsConversation, get_or_create_conversation-IsOpened,
}
use radix_relay.History.Inserting.{
  setting, setting-id, setting-peer, with_message, after, tail-eq, with_message-IsValid, query_new,
  query_old, grows, setting-fields,
}

-- A text message as it is read back before any change of its status.
abbrev pub new_message : ℕ → ℕ → MessageDirection → ℕ → String → Bool → Bool → StoredMessage
new_message id conversation_id d ts content k g = record {
  id = id;
  conversation_id = conversation_id;
  direction = d;
  timestamp = ts;
  message_type = text;
  content = content;
  delivery_status = pending;
  was_prekey_message = k;
  session_established = g;
}

-- What both methods have done: `d`, `k` and `g` are the direction and the flags of the message,
-- and `n` is how much the unread count has grown.
pub record IsStored (from_utf8 : List ℕ → Option String) (fp : String) (ts : ℕ) (plaintext : List ℕ)
    (d : MessageDirection) (k g : Bool) (n : ℕ) (s s' : Database) (c : ConversationRow)
    : Type 0 where
  pub valid : IsValid s'
  pub conversation : query_row (of_peer fp) s'.conversations ≡ some c
  pub stamped : c.last_message_timestamp ≡ as_i64 ts
  pub counted : c.unread_count ≡ unread_of (query_row (of_peer fp) s.conversations) + n
  pub retrieved :
      get_message from_utf8 s' (s.message_seq + 1)
      ≡ ok (new_message (s.message_seq + 1) c.id d ts (utf8_or_default (from_utf8 plaintext)) k g)
  pub old_messages :
      (i : ℕ) → i ≤ s.message_seq → get_message from_utf8 s' i ≡ get_message from_utf8 s i
  pub other_peers :
      (gp : String)
      → gp ≢ fp
      → query_row (of_peer gp) s'.conversations ≡ query_row (of_peer gp) s.conversations

-- The row that both methods insert into a conversation.
abbrev message_row : ℕ → MessageDirection → ℕ → List ℕ → Bool → Bool → MessageRow
message_row conversation_id d ts plaintext k g = record {
  id = 0;
  conversation_id = conversation_id;
  direction = direction_code d;
  timestamp = as_i64 ts;
  message_type = pos 0;
  content = plaintext;
  delivery_status = pos 0;
  was_prekey_message = k;
  session_established = g;
}

module _ (u : List ℕ → Option String) where
  get_message-found :
      (s : Database) (i : ℕ) {m : MessageRow}
      → query_row (is_message i) s.messages ≡ some m
      → get_message u s i ≡ ok (read_message u m)
  unfolding get_message
  get_message-found s i e = rw (e, get_message)

  get_message-eq :
      (s t : Database) (i : ℕ)
      → query_row (is_message i) s.messages ≡ query_row (is_message i) t.messages
      → get_message u s i ≡ get_message u t i
  unfolding get_message
  get_message-eq s t i e = rw (e, get_message)

  -- What the row mapper makes of a row that a storing method has inserted.
  read_message-row :
      (id i ts : ℕ) (d : MessageDirection) (plaintext : List ℕ) (k g : Bool)
      → ts < 2 ^ 64
      → read_message u (record (message_row i d ts plaintext k g) { id = id })
        ≡ new_message id i d ts (utf8_or_default (u plaintext)) k g
  unfolding read_message type_from status_from
  read_message-row id i ts d plaintext k g fits = rw (codes_roundtrip.0 d, as_u64-as_i64 ts fits)

module _ (u : List ℕ → Option String) (fp : String) (ts : ℕ) (plaintext : List ℕ)
    (d : MessageDirection) (k g b : Bool) (s t : Database) (c : ConversationRow)
    (fits : ts < 2 ^ 64) (o : IsOpened fp s t c) where
  abbrev row : MessageRow
  row = message_row c.id d ts plaintext k g

  after-IsStored :
      IsStored u fp ts plaintext d k g (grows b) s (after t c.id row ts b) (setting b ts c)
  after-IsStored =
      let here = IsOpened-IsConversation fp s t c o in
      let v = with_message-IsValid t row here o.valid in
      let (stamped, counted) = setting-fields b ts c in
      record {
        valid =
            update-IsValid (with_message t row) (has_id c.id) (setting b ts) (setting-id b ts)
              (setting-peer b ts) v;
        conversation = update_self t fp (setting b ts) (setting-peer b ts) c o.found;
        stamped = stamped;
        counted = counted ∙ ap (λ (n : ℕ). n + grows b) o.same_unread;
        retrieved =
            ap (get_message u (after t c.id row ts b)) (ap (λ (n : ℕ). n + 1) (sym o.same_seq))
            ∙ get_message-found u (after t c.id row ts b) (t.message_seq + 1)
                (query_new t row o.valid)
            ∙ ap ok (read_message-row u (t.message_seq + 1) c.id ts d plaintext k g fits)
            ∙ ap (λ (n : ℕ). ok (new_message (n + 1) c.id d ts (utf8_or_default (u plaintext)) k g))
                o.same_seq
            ∙ ap
                (λ (n : ℕ).
                  ok (new_message (s.message_seq + 1) n d ts (utf8_or_default (u plaintext)) k g))
                (sym (setting-id b ts c));
        old_messages = λ i h. get_message-eq u (after t c.id row ts b) s i (
            query_old t row o.valid i (rw o.same_seq h)
            ∙ ap (query_row (is_message i)) o.same_messages);
        other_peers = λ gp ne.
            update_other t fp (setting b ts) (setting-peer b ts) c gp o.valid o.found ne
            ∙ o.others gp ne;
      }

-- In a valid database where the conversation may be opened, storing an incoming message returns the
-- next message id and keeps the invariant; the message is then read back as it was given, marked as
-- incoming and pending; the conversation with the peer is there, has the message's time and one more
-- unread message; older messages and the conversations with other peers are unchanged.
pub store_incoming_message-IsStored :
    (u : List ℕ → Option String) (fp : String) (ts : ℕ) (plaintext : List ℕ) (k g : Bool)
    (s : Database)
    → ts < 2 ^ 64
    → IsValid s
    → MayOpen fp s
    → let (r, s') = store_incoming_message fp ts plaintext k g s in
      (r ≡ ok (s.message_seq + 1))
      × ((c : ConversationRow) × IsStored u fp ts plaintext incoming k g 1 s s' c)
unfolding store_incoming_message
store_incoming_message-IsStored u fp ts plaintext k g s fits v may =
    let t = (get_or_create_conversation fp s).1 in
    let (c, opened, o) = get_or_create_conversation-IsOpened fp s v may in
    let here = IsOpened-IsConversation fp s t c o in
    rw (opened, tail-eq t c.id (message_row c.id incoming ts plaintext k g) ts true here)
      (
        ap (λ (n : ℕ). ok (n + 1)) o.same_seq,
        (setting true ts c, after-IsStored u fp ts plaintext incoming k g true s t c fits o),
      )

-- In a valid database where the conversation may be opened, storing an outgoing message returns the
-- next message id and keeps the invariant; the message is then read back as it was given, marked as
-- outgoing and pending; the conversation with the peer is there, has the message's time and the
-- unread count it had; older messages and the conversations with other peers are unchanged.
pub store_outgoing_message-IsStored :
    (u : List ℕ → Option String) (fp : String) (ts : ℕ) (plaintext : List ℕ) (s : Database)
    → ts < 2 ^ 64
    → IsValid s
    → MayOpen fp s
    → let (r, s') = store_outgoing_message fp ts plaintext s in
      (r ≡ ok (s.message_seq + 1))
      × ((c : ConversationRow) × IsStored u fp ts plaintext outgoing false false 0 s s' c)
unfolding store_outgoing_message
store_outgoing_message-IsStored u fp ts plaintext s fits v may =
    let t = (get_or_create_conversation fp s).1 in
    let (c, opened, o) = get_or_create_conversation-IsOpened fp s v may in
    let here = IsOpened-IsConversation fp s t c o in
    rw (opened, tail-eq t c.id (message_row c.id outgoing ts plaintext false false) ts false here)
      (
        ap (λ (n : ℕ). ok (n + 1)) o.same_seq,
        (
          setting false ts c,
          after-IsStored u fp ts plaintext outgoing false false false s t c fits o,
        ),
      )
