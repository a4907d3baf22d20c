-- ===== src/Contacts/Validity.antt =====
-- The tables of the history when a contact is replaced.
use radix_relay.Prelude.{
  ℕ, ◌≡◌, inl, inr, Bool, true, false, some, List, [], ◌∷◌, String, nat_eq, string_eq, is_some,
  if◌then◌else◌, Bool-cases, arith,
}
use radix_relay.Sql.Tables.{select, query_row, delete, All, All-delete}
use radix_relay.Sql.Unique.{IsUnique-delete}
use radix_relay.Exec.{ok}
use radix_relay.Database.{ContactRow, ConversationRow, MessageRow, Database}
use radix_relay.NostrIdentity.{IdentityApi, derive_public_key_from_peer_identity}
use radix_relay.History.{of_contact, has_id}
use radix_relay.History.Invariant.{IsValid, IsConversation}
use radix_relay.History.Opening.{MayOpen}
use radix_relay.Contacts.{
  is_orphan, is_lost, cascade, replace_contact, add_contact_from_identity_key,
  generate_identity_fingerprint_from_key,
}
use radix_relay.Contacts.Adding.{IsContactTable, add_contact_from_identity_key-IsAdded}

-- A conversation that is not among the deleted ones is kept.
IsConversation-kept :
    (p : ConversationRow → Bool) (cs : List ConversationRow) (i : ℕ)
    → is_some (query_row (has_id i) (select p cs)) ≡ false
    → IsConversation cs i
    → IsConversation (delete p cs) i
unfolding query_row select delete
IsConversation-kept p [] i h k = k
IsConversation-kept p (c ∷ cs) i h k = ground (arith, IsConversation-kept p cs i)

All-kept :
    (P Q : MessageRow → Type 0) (p : MessageRow → Bool) (ms : List MessageRow)
    → ((m : MessageRow) → p m ≡ false → P m → Q m)
    → All P ms
    → All Q (delete p ms)
unfolding delete
All-kept P Q p [] f h = tt
All-kept P Q p (m ∷ ms) f h = elim (Bool-cases (p m)) [
  | inl gone ↦ rw gone (All-kept P Q p ms f h.1)
  | inr stays ↦ rw stays (f m stays h.0, All-kept P Q p ms f h.1)
]

cascade_both-IsValid :
    (p : ConversationRow → Bool) (s : Database)
    → IsValid s
    → IsValid (record s {
      conversations = delete p s.conversations;
      messages = delete (is_lost (select p s.conversations)) s.messages;
    })
cascade_both-IsValid p s v =
    let lost = is_lost (select p s.conversations) in
    record {
      unique_ids = IsUnique-delete (λ (c : ConversationRow). c.id) p s.conversations v.unique_ids;
      unique_peers =
          IsUnique-delete (λ (c : ConversationRow). c.rdx_fingerprint) p s.conversations
            v.unique_peers;
      ids_counted = All-delete _ p s.conversations v.ids_counted;
      unique_messages =
          IsUnique-delete (λ (m : MessageRow). m.id) lost s.messages v.unique_messages;
      messages_counted = All-delete _ lost s.messages v.messages_counted;
      messages_placed =
          All-kept _ (λ m. IsConversation (delete p s.conversations) m.conversation_id) lost
            s.messages (λ m h k. IsConversation-kept p s.conversations m.conversation_id h k)
            v.messages_placed;
    }

if-IsValid : (b : Bool) (s t : Database) → IsValid s → IsValid t → IsValid (if b then s else t)
if-IsValid true s t v w = v
if-IsValid false s t v w = w

pub cascade-IsValid :
    (replaced : List ContactRow) (s : Database) → IsValid s → IsValid (cascade replaced s)
unfolding cascade
cascade-IsValid replaced s v =
    if-IsValid s.foreign_keys _ s (cascade_both-IsValid (is_orphan replaced) s v) v

contact-MayOpen :
    (fp : String) (s : Database) {c : ContactRow}
    → query_row (of_contact fp) s.contacts ≡ some c
    → MayOpen fp s
contact-MayOpen fp s e = ground arith

pub contacts-IsValid :
    (s : Database) (contacts : List ContactRow)
    → IsValid s
    → IsValid (record s { contacts = contacts })
contacts-IsValid s contacts v = record {
  unique_ids = v.unique_ids;
  unique_peers = v.unique_peers;
  ids_counted = v.ids_counted;
  unique_messages = v.unique_messages;
  messages_counted = v.messages_counted;
  messages_placed = v.messages_placed;
}

module _ (I : IdentityApi) where
  -- An added contact's conversation may be opened, in tables that stay valid.
  pub add_contact_from_identity_key-opens :
      (now : ℕ) (k : I.IdentityKey) (s : Database) {pk : I.PublicKey}
      → IsContactTable s.contacts
      → IsValid s
      → derive_public_key_from_peer_identity I k ≡ ok pk
      → let (r, s') = add_contact_from_identity_key I now k s in
        let fp = generate_identity_fingerprint_from_key I k in
        (r ≡ ok fp) × IsValid s' × MayOpen fp s'
  unfolding add_contact_from_identity_key replace_contact
  add_contact_from_identity_key-opens now k s v w e =
      let (added, a) = add_contact_from_identity_key-IsAdded I now k s v e in
      (
        added,
        rw e (contacts-IsValid _ _ (cascade-IsValid _ s w)),
        contact-MayOpen (generate_identity_fingerprint_from_key I k)
            (add_contact_from_identity_key I now k s).1 a.found,
      )
