-- ===== src/Tests/Contacts.antt =====
-- A contact that is added again, and aliases, on the database of one contact.
use package.text.Mathlib.TextEquality.{eq_iff}
use radix_relay.Prelude.{ℕ, ◌≡◌, ◌≢◌, refl, Option, none, some, [], ◌∷◌, string_eq, arith}
use radix_relay.Exec.{Outcome, ok}
use radix_relay.Sql.Tables.{query_row, count}
use radix_relay.Database.{ContactRow, Database}
use radix_relay.Memory.Address.{ProtocolAddress}
use radix_relay.NostrIdentity.{derive_public_key_from_peer_identity}
use radix_relay.History.{of_contact, of_peer, of_conversation}
use radix_relay.Contacts.{
  generate_identity_fingerprint_from_key, add_contact_from_identity_key, assign_contact_alias,
}
use radix_relay.Contacts.Adding.{
  IsContactTable, IsAdded, add_contact_from_identity_key-IsAdded,
  add_contact_from_identity_key-drops_history,
}
use radix_relay.Contacts.Aliases.{HasOneAlias, assign_contact_alias-HasOneAlias}
use radix_relay.Tests.Peers.{identity_api}
use radix_relay.Tests.Messages.{alice, with_alice, two_messages}

alice-IsContactTable : IsContactTable two_messages.contacts
alice-IsContactTable = record { unique_fingerprints = (tt, tt); unique_pubkeys = (tt, tt) }

derived : derive_public_key_from_peer_identity identity_api 3 ≡ ok (0 ∷ 3 ∷ [])
unfolding derive_public_key_from_peer_identity
derived = refl

alice-found :
    query_row
      (of_contact (generate_identity_fingerprint_from_key identity_api 3))
      two_messages.contacts
    ≡ some alice
unfolding query_row generate_identity_fingerprint_from_key
alice-found = refl

conversation-found :
    query_row
      (of_peer (generate_identity_fingerprint_from_key identity_api 3))
      two_messages.conversations
    ≡ some with_alice
unfolding query_row generate_identity_fingerprint_from_key
conversation-found = refl

add_contact_from_identity_key-IsAdded_example :
    let (r, s') = add_contact_from_identity_key identity_api 9 3 two_messages in
    let fp = generate_identity_fingerprint_from_key identity_api 3 in
    (r ≡ ok fp) × IsAdded fp "" 9 two_messages.contacts s'.contacts
add_contact_from_identity_key-IsAdded_example =
    add_contact_from_identity_key-IsAdded identity_api 9 3 two_messages {pk = 0 ∷ 3 ∷ []}
      alice-IsContactTable derived

add_contact_from_identity_key-drops_history_example :
    let fp = generate_identity_fingerprint_from_key identity_api 3 in
    let s' = (add_contact_from_identity_key identity_api 9 3 two_messages).1 in
    (query_row (of_peer fp) s'.conversations ≡ none) × (count (of_conversation 1) s'.messages ≡ 0)
add_contact_from_identity_key-drops_history_example =
    add_contact_from_identity_key-drops_history identity_api 9 3 two_messages {pk = 0 ∷ 3 ∷ []}
      {d = alice} {v = with_alice} refl derived alice-found conversation-found

-- No session is there.
abbrev no_session : ProtocolAddress → Outcome (Option ℕ)
no_session address = ok none

abbrev bob : ContactRow
bob = record alice { rdx_fingerprint = "RDX:b"; nostr_pubkey = "cd"; user_alias = none }

abbrev two_contacts : Database
two_contacts = record two_messages { contacts = alice ∷ bob ∷ [] }

two_contacts-HasOneAlias : HasOneAlias two_contacts.contacts
unfolding query_row
two_contacts-HasOneAlias a fp gp h k = ground (arith, h, k, eq_iff "RDX:a" fp, eq_iff "RDX:a" gp)

assign_contact_alias-HasOneAlias_example :
    HasOneAlias (assign_contact_alias no_session 9 "RDX:b" "Alice" two_contacts).1.contacts
assign_contact_alias-HasOneAlias_example =
    assign_contact_alias-HasOneAlias no_session 9 "RDX:b" "Alice" two_contacts
      two_contacts-HasOneAlias

alice-bob : alice.rdx_fingerprint ≢ "RDX:b"
alice-bob e = let h = (eq_iff "RDX:a" "RDX:b").1 e in cc
