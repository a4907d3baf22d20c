-- ===== src/History/Opening.antt =====
-- `get_or_create_conversation` of message_history.rs.
use radix_relay.Prelude.{
  ℕ, ◌+◌, ◌≡◌, ◌≢◌, refl, ap, sym, ◌∙◌, inl, inr, Bool, true, false, not, ◌&&◌, ◌||◌, Option, none,
  some, List, [], ◌∷◌, ◌++◌, String, nat_eq, string_eq, is_some, Option-cases, arith,
}
use text.Mathlib.TextEquality.{eq_iff}
use text.Mathlib.TextPositions.{eq_refl}
use radix_relay.Exec.{Outcome, ok, err, database}
use radix_relay.Sql.{pos}
use radix_relay.Sql.Tables.{query_row, query_row-append_some, query_row-append}
use radix_relay.Sql.Unique.{query_row-found}
use radix_relay.Database.{ConversationRow, Database}
use radix_relay.History.{
  of_contact, of_peer, has_id, insert_conversation, get_or_create_conversation, contact_pubkey,
}
use radix_relay.History.Invariant.{IsValid, IsConversation, insert_conversation-IsValid}

-- The unread count of a conversation that may not be there.
abbrev pub unread_of : Option ConversationRow → ℕ
unread_of none = 0
unread_of (some c) = c.unread_count

-- Whether SQLite lets the conversation with this peer be used: it is there, or foreign keys are not
-- enforced, or the peer is a contact.
abbrev pub may_open : String → Database → Bool
may_open fp s =
    is_some (query_row (of_peer fp) s.conversations)
    || (not s.foreign_keys || is_some (query_row (of_contact fp) s.contacts))

abbrev pub MayOpen : String → Database → Type 0
MayOpen fp s = may_open fp s ≡ true

-- The foreign key of a new conversation is met.
abbrev IsKeyMet : String → Database → Type 0
IsKeyMet fp s = (s.foreign_keys && not (is_some (query_row (of_contact fp) s.contacts))) ≡ false

-- `t` is `s` with the conversation `c` with the peer there, and nothing else changed.
pub record IsOpened (fp : String) (s t : Database) (c : ConversationRow) : Type 0 where
  pub found : query_row (of_peer fp) t.conversations ≡ some c
  pub valid : IsValid t
  pub same_messages : t.messages ≡ s.messages
  pub same_seq : t.message_seq ≡ s.message_seq
  pub same_unread : c.unread_count ≡ unread_of (query_row (of_peer fp) s.conversations)
  pub others :
      (gp : String)
      → gp ≢ fp
      → query_row (of_peer gp) t.conversations ≡ query_row (of_peer gp) s.conversations

pub IsOpened-IsConversation :
    (fp : String) (s t : Database) (c : ConversationRow)
    → IsOpened fp s t c
    → IsConversation t.conversations c.id
IsOpened-IsConversation fp s t c o =
    let (d, e) =
      query_row-found (of_peer fp) (has_id c.id) t.conversations o.found (ground arith) in
    rw e

-- A new conversation at the end of the table.
created-others :
    (cs : List ConversationRow) (c : ConversationRow) (gp : String)
    → gp ≢ c.rdx_fingerprint
    → query_row (of_peer gp) (cs ++ c ∷ []) ≡ query_row (of_peer gp) cs
created-others cs c gp ne = elim (Option-cases (query_row (of_peer gp) cs)) [
  | inl absent ↦
      rw (query_row-append (of_peer gp) cs (c ∷ []) absent, absent)
        (unfold query_row in ground (arith, eq_iff c.rdx_fingerprint gp))
  | inr (d, e) ↦ query_row-append_some (of_peer gp) cs (c ∷ []) e ∙ sym e
]

-- The row that a new conversation gets.
abbrev created_row : String → Option String → Database → ConversationRow
created_row fp k s = record {
  id = s.conversation_seq + 1;
  rdx_fingerprint = fp;
  nostr_pubkey = k;
  last_message_timestamp = pos 0;
  unread_count = 0;
  archived = false;
}

insert_conversation-eq :
    (fp : String) (k : Option String) (s : Database)
    → IsKeyMet fp s
    → insert_conversation fp k s ≡ (
      ok (s.conversation_seq + 1),
      record s {
        conversations = s.conversations ++ created_row fp k s ∷ [];
        conversation_seq = s.conversation_seq + 1;
      },
    )
unfolding insert_conversation
insert_conversation-eq fp k s may = rw may

insert_conversation-IsOpened :
    (fp : String) (k : Option String) (s : Database)
    → IsValid s
    → IsKeyMet fp s
    → query_row (of_peer fp) s.conversations ≡ none
    → IsOpened fp s (insert_conversation fp k s).1 (created_row fp k s)
insert_conversation-IsOpened fp k s v may absent =
    let created = insert_conversation-IsValid s fp k absent v in
    let e = insert_conversation-eq fp k s may in
    rw e (record {
      found =
          query_row-append (of_peer fp) s.conversations _ absent
          ∙ (unfold query_row in rw (eq_refl fp));
      valid = rw e at created;
      same_messages = refl;
      same_seq = refl;
      same_unread = rw absent;
      others = λ gp ne. created-others s.conversations (created_row fp k s) gp ne;
    })

-- Where it may be opened, the conversation with a peer is there afterwards, and the id returned is
-- its id.
pub get_or_create_conversation-IsOpened :
    (fp : String) (s : Database)
    → IsValid s
    → MayOpen fp s
    → let (r, t) = get_or_create_conversation fp s in
      (c : ConversationRow) × (r ≡ ok c.id) × IsOpened fp s t c
unfolding get_or_create_conversation
get_or_create_conversation-IsOpened fp s v may =
    elim (Option-cases (query_row (of_peer fp) s.conversations)) [
      | inr (c, e) ↦
          rw (e, get_or_create_conversation)
            (
              c,
              refl,
              record {
                found = e;
                valid = v;
                same_messages = refl;
                same_seq = refl;
                same_unread = rw e;
                others = λ gp ne. refl;
              },
            )
      | inl absent ↦
          let met : IsKeyMet fp s = ground arith in
          let k = contact_pubkey (query_row (of_contact fp) s.contacts) in
          rw (absent, get_or_create_conversation)
            (
              created_row fp k s,
              ap (λ (r : Outcome ℕ × Database). r.0) (insert_conversation-eq fp k s met),
              insert_conversation-IsOpened fp k s v met absent,
            )
    ]

-- Where it may not, the call fails and writes nothing.
pub get_or_create_conversation-refused :
    (fp : String) (s : Database)
    → may_open fp s ≡ false
    → get_or_create_conversation fp s ≡ (err database, s)
unfolding get_or_create_conversation insert_conversation
get_or_create_conversation-refused fp s h =
    elim (Option-cases (query_row (of_peer fp) s.conversations)) [
      | inl absent ↦
          let broken : (s.foreign_keys && not (is_some (query_row (of_contact fp) s.contacts)))
              ≡ true =
            ground arith in
          rw (absent, broken, get_or_create_conversation, insert_conversation)
      | inr (c, e) ↦ absurd (ground arith)
    ]
