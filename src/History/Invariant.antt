-- ===== src/History/Invariant.antt =====
-- The invariant of the tables of message_history.rs, under an update and under an insertion.
use radix_relay.Prelude.{
  ℕ, ◌≤◌, ◌≡◌, ap, inl, inr, Bool, true, not, ◌&&◌, Option, none, List, ◌++◌, String, ◌==◌, nat_eq,
  string_eq, is_some, Bool-cases, Option-cases, arith,
}
use text.Mathlib.TextEquality.{eq_iff}
use radix_relay.Sql.Tables.{
  query_row, update, All, All-append, All-update, All-map, query_row-append_some, query_row-update,
}
use radix_relay.Sql.Unique.{IsUnique, IsUnique-append, IsUnique-update, query_row-none}
use radix_relay.Database.{ConversationRow, MessageRow, Database}
use radix_relay.History.{of_contact, of_peer, has_id, insert_conversation}

-- A conversation with this id is there.
abbrev pub IsConversation : List ConversationRow → ℕ → Type 0
IsConversation cs i = is_some (query_row (has_id i) cs) ≡ true

-- Ids and fingerprints are unique, no id is above its counter, and each message belongs to a
-- conversation that is there, whether or not SQLite enforces that.
pub record IsValid (s : Database) : Type 0 where
  pub unique_ids : IsUnique (λ (c : ConversationRow). c.id) s.conversations
  pub unique_peers : IsUnique (λ (c : ConversationRow). c.rdx_fingerprint) s.conversations
  pub ids_counted : All (λ c. c.id ≤ s.conversation_seq) s.conversations
  pub unique_messages : IsUnique (λ (m : MessageRow). m.id) s.messages
  pub messages_counted : All (λ m. m.id ≤ s.message_seq) s.messages
  pub messages_placed : All (λ m. IsConversation s.conversations m.conversation_id) s.messages

pub IsConversation-append :
    (cs ds : List ConversationRow) (i : ℕ) → IsConversation cs i → IsConversation (cs ++ ds) i
IsConversation-append cs ds i h = elim (Option-cases (query_row (has_id i) cs)) [
  | inl e ↦ absurd (ground arith)
  | inr (c, e) ↦ rw (query_row-append_some (has_id i) cs ds e)
]

pub IsConversation-update :
    (p : ConversationRow → Bool) (f : ConversationRow → ConversationRow) (cs : List ConversationRow)
    (i : ℕ)
    → ((c : ConversationRow) → (f c).id ≡ c.id)
    → IsConversation cs i
    → IsConversation (update p f cs) i
IsConversation-update p f cs i keep h = elim (Option-cases (query_row (has_id i) cs)) [
  | inl e ↦ absurd (ground arith)
  | inr (c, e) ↦ rw (query_row-update p (has_id i) f cs (λ y. ap (λ (n : ℕ). n == i) (keep y)) e)
]

-- An update of conversations that leaves ids and fingerprints alone.
pub update-IsValid :
    (s : Database) (p : ConversationRow → Bool) (f : ConversationRow → ConversationRow)
    → ((c : ConversationRow) → (f c).id ≡ c.id)
    → ((c : ConversationRow) → (f c).rdx_fingerprint ≡ c.rdx_fingerprint)
    → IsValid s
    → IsValid (record s { conversations = update p f s.conversations })
update-IsValid s p f ids peers v = record {
  unique_ids = IsUnique-update (λ (c : ConversationRow). c.id) p f s.conversations ids v.unique_ids;
  unique_peers =
      IsUnique-update (λ (c : ConversationRow). c.rdx_fingerprint) p f s.conversations peers
        v.unique_peers;
  ids_counted =
      All-update (λ c. c.id ≤ s.conversation_seq) p f s.conversations (λ c h. rw (ids c) h)
        v.ids_counted;
  unique_messages = v.unique_messages;
  messages_counted = v.messages_counted;
  messages_placed =
      All-map _ _ s.messages
        (λ m h. IsConversation-update p f s.conversations m.conversation_id ids h)
        v.messages_placed;
}

pub insert_conversation-IsValid :
    (s : Database) (fp : String) (k : Option String)
    → query_row (of_peer fp) s.conversations ≡ none
    → IsValid s
    → IsValid (insert_conversation fp k s).1
unfolding insert_conversation
insert_conversation-IsValid s fp k absent v =
    let refused = s.foreign_keys && not (is_some (query_row (of_contact fp) s.contacts)) in
    elim (Bool-cases refused) [
      | inl no_contact ↦ rw no_contact v
      | inr free ↦ rw free (record {
        unique_ids =
            IsUnique-append (λ (c : ConversationRow). c.id) s.conversations _ v.unique_ids
              (All-map _ _ s.conversations (λ c h. omega arith) v.ids_counted);
        unique_peers =
            IsUnique-append (λ (c : ConversationRow). c.rdx_fingerprint) s.conversations _
              v.unique_peers
              (All-map _ _ s.conversations (λ c h. λ e. ground (arith, eq_iff c.rdx_fingerprint fp))
                (query_row-none (of_peer fp) s.conversations absent));
        ids_counted =
            All-append _ s.conversations _
              (All-map _ _ s.conversations (λ c h. omega arith) v.ids_counted) (omega arith, tt);
        unique_messages = v.unique_messages;
        messages_counted = v.messages_counted;
        messages_placed =
            All-map _ _ s.messages
              (λ m h. IsConversation-append s.conversations _ m.conversation_id h)
              v.messages_placed;
      })
    ]
