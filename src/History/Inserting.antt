-- ===== src/History/Inserting.antt =====
-- The insertion of a message with the update of its conversation, with which both storing methods of
-- message_history.rs end.
use radix_relay.Prelude.{
  ℕ, ◌+◌, ◌≤◌, ◌≡◌, refl, sym, ◌∙◌, inl, inr, Bool, true, false, not, ◌&&◌, some, [], ◌∷◌, ◌++◌,
  if◌then◌else◌, nat_eq, string_eq, is_some, Option-cases, arith,
}
use radix_relay.Exec.{Exec, ok, pure, ◌>>=◌, ◌>>◌}
use radix_relay.Sql.{as_i64}
use radix_relay.Sql.Tables.{
  query_row, update, All-append, All-map, query_row-append, query_row-append_some,
}
use radix_relay.Sql.Unique.{IsUnique-append, query_row-none_of}
use radix_relay.Database.{ConversationRow, MessageRow, Database}
use radix_relay.History.{
  has_id, is_message, insert_message, update_conversation, touch, touch_unread,
}
use radix_relay.History.Invariant.{IsValid, IsConversation}

abbrev pub setting : Bool → ℕ → ConversationRow → ConversationRow
setting increment timestamp = if increment then touch_unread timestamp else touch timestamp

pub setting-id : (b : Bool) (ts : ℕ) (c : ConversationRow) → (setting b ts c).id ≡ c.id
setting-id true ts c = refl
setting-id false ts c = refl

pub setting-peer :
    (b : Bool) (ts : ℕ) (c : ConversationRow) → (setting b ts c).rdx_fingerprint ≡ c.rdx_fingerprint
setting-peer true ts c = refl
setting-peer false ts c = refl

-- The tail of both methods, after the conversation is known.
abbrev pub tail : ℕ → MessageRow → ℕ → Bool → Exec Database ℕ
tail id m ts increment = do
  message_id ← insert_message m
  update_conversation id ts increment
  pure message_id

abbrev pub with_message : Database → MessageRow → Database
with_message t m = record t {
  messages = t.messages ++ record m { id = t.message_seq + 1 } ∷ [];
  message_seq = t.message_seq + 1;
}

abbrev pub after : Database → ℕ → MessageRow → ℕ → Bool → Database
after t id m ts increment = record (with_message t m) {
  conversations = update (has_id id) (setting increment ts) t.conversations;
}

pub tail-eq :
    (t : Database) (id : ℕ) (m : MessageRow) (ts : ℕ) (b : Bool)
    → IsConversation t.conversations m.conversation_id
    → tail id m ts b t ≡ (ok (t.message_seq + 1), after t id m ts b)
unfolding insert_message update_conversation
tail-eq t id m ts b here =
    let free : (t.foreign_keys
          && not (is_some (query_row (has_id m.conversation_id) t.conversations)))
        ≡ false =
      ground arith in
    rw free

pub with_message-IsValid :
    (t : Database) (m : MessageRow)
    → IsConversation t.conversations m.conversation_id
    → IsValid t
    → IsValid (with_message t m)
with_message-IsValid t m here v = record {
  unique_ids = v.unique_ids;
  unique_peers = v.unique_peers;
  ids_counted = v.ids_counted;
  unique_messages =
      IsUnique-append (λ (n : MessageRow). n.id) t.messages _ v.unique_messages
        (All-map _ _ t.messages (λ n h. omega arith) v.messages_counted);
  messages_counted =
      All-append _ t.messages _ (All-map _ _ t.messages (λ n h. omega arith) v.messages_counted)
        (omega arith, tt);
  messages_placed = All-append _ t.messages _ v.messages_placed (here, tt);
}

module _ (t : Database) (m : MessageRow) (v : IsValid t) where
  pub query_new :
      query_row (is_message (t.message_seq + 1)) (with_message t m).messages
      ≡ some (record m { id = t.message_seq + 1 })
  query_new =
      query_row-append (is_message (t.message_seq + 1)) t.messages _ (
        query_row-none_of _ t.messages
          (All-map _ _ t.messages (λ n h. ground arith) v.messages_counted))
      ∙ (unfold query_row in ground arith)

  pub query_old :
      (i : ℕ)
      → i ≤ t.message_seq
      → query_row (is_message i) (with_message t m).messages ≡ query_row (is_message i) t.messages
  query_old i h = elim (Option-cases (query_row (is_message i) t.messages)) [
    | inl absent ↦
        query_row-append (is_message i) t.messages _ absent ∙ (unfold query_row in ground arith)
    | inr (n, e) ↦ query_row-append_some (is_message i) t.messages _ e ∙ sym e
  ]

-- How much the unread count grows.
abbrev pub grows : Bool → ℕ
grows true = 1
grows false = 0

pub setting-fields :
    (b : Bool) (ts : ℕ) (c : ConversationRow)
    → ((setting b ts c).last_message_timestamp ≡ as_i64 ts)
      × ((setting b ts c).unread_count ≡ c.unread_count + grows b)
setting-fields true ts c = (refl, refl)
setting-fields false ts c = (refl, omega arith)
