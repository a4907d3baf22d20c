-- ===== src/Contacts.antt =====
-- rust/signal_bridge/src/contact_manager.rs, over the table of contacts. `now` is the clock in
-- seconds; the session store is what its `load_session` answers.
pub mod Adding
pub mod Aliases
pub mod Soundness
pub mod Validity
use package.Prim.Native.String.{◌++◌ as str_append, slice}
use radix_relay.Prelude.{
  ℕ, Bool, true, false, not, ◌||◌, Option, none, some, List, [], ◌∷◌, ◌++◌, String, if◌then◌else◌,
  ◌==◌, nat_eq, string_eq, is_some, ltb,
}
use radix_relay.Exec.{
  Exec, Outcome, ok, err, panic, storage, protocol, invalid_input, reads, lift, pure, ◌>>=◌, ◌>>◌,
}
use radix_relay.Sql.Tables.{select, query_row, update, delete, count}
use radix_relay.Sql.Sorting.{OrderBy}
use radix_relay.Database.{ContactRow, ConversationRow, MessageRow, Database}
use radix_relay.Memory.Address.{ProtocolAddress}
use radix_relay.NostrIdentity.{
  IdentityApi, codes, then_outcome, derive_public_key_from_peer_identity,
}
use radix_relay.History.{of_contact, has_id}

pub record ContactInfo : Type 0 where
  pub rdx_fingerprint : String
  pub nostr_pubkey : String
  pub user_alias : Option String
  pub has_active_session : Bool

-- The row breaks the primary key or the unique key of the new row.
abbrev pub conflicts : ContactRow → ContactRow → Bool
conflicts c d = d.rdx_fingerprint == c.rdx_fingerprint || d.nostr_pubkey == c.nostr_pubkey

abbrev pub first_seen_or : ℕ → Option ContactRow → ℕ
first_seen_or now none = now
first_seen_or now (some c) = c.first_seen

-- The contact that a conversation is with is among those replaced.
abbrev pub is_orphan : List ContactRow → ConversationRow → Bool
is_orphan replaced v = is_some (query_row (of_contact v.rdx_fingerprint) replaced)

abbrev pub is_lost : List ConversationRow → MessageRow → Bool
is_lost orphans m = is_some (query_row (has_id m.conversation_id) orphans)

-- `ON DELETE CASCADE`, from the contacts that are replaced to their conversations and the messages
-- of those.
unfoldable pub cascade : List ContactRow → Database → Database
cascade replaced s =
    if s.foreign_keys
    then record s {
      conversations = delete (is_orphan replaced) s.conversations;
      messages = delete (is_lost (select (is_orphan replaced) s.conversations)) s.messages;
    }
    else s

-- `INSERT OR REPLACE INTO contacts`: the rows that the new one conflicts with are deleted first.
unfoldable pub replace_contact : ContactRow → Database → Database
unfolding cascade
replace_contact c s =
    let kept = first_seen_or c.first_seen (query_row (of_contact c.rdx_fingerprint) s.contacts) in
    record (cascade (select (conflicts c) s.contacts) s) {
      contacts = delete (conflicts c) s.contacts ++ record c { first_seen = kept } ∷ [];
    }

module _ (I : IdentityApi) where
  unfoldable pub generate_identity_fingerprint_from_key : I.IdentityKey → String
  generate_identity_fingerprint_from_key identity_key =
      str_append "RDX:"
        (I.sha256_hex (I.serialize identity_key ++ codes "radix-identity-fingerprint"))

  -- The fingerprint has 68 characters, so the slice of it is there.
  unfoldable pub add_contact_from_identity_key : ℕ → I.IdentityKey → Exec Database String
  unfolding generate_identity_fingerprint_from_key
  add_contact_from_identity_key now identity_key = do
    let rdx = generate_identity_fingerprint_from_key identity_key
    nostr_pubkey ← lift (derive_public_key_from_peer_identity I identity_key)
    λ s. (
      ok tt,
      replace_contact
          (record {
            rdx_fingerprint = rdx;
            nostr_pubkey = I.to_hex nostr_pubkey;
            user_alias = some (str_append "Unknown-" (slice rdx 4 12));
            signal_identity_key = I.serialize identity_key;
            first_seen = now;
            last_updated = now;
          })
          s,
    )
    pure rdx

  -- `bundle_identity_key` is `bincode::deserialize` and the field `identity_key` of the bundle.
  unfoldable pub add_contact_from_bundle :
      (List ℕ → Option (List ℕ)) → ℕ → List ℕ → Option String → Exec Database String
  unfolding generate_identity_fingerprint_from_key
  add_contact_from_bundle bundle_identity_key now bundle_bytes user_alias = do
    bundle ←
        lift (elim (bundle_identity_key bundle_bytes) [ none ↦ err invalid_input | some k ↦ ok k ])
    identity_key ← lift (elim (I.decode bundle) [ none ↦ err protocol | some k ↦ ok k ])
    nostr_pubkey ← lift (derive_public_key_from_peer_identity I identity_key)
    let rdx = generate_identity_fingerprint_from_key identity_key
    λ s. (
      ok tt,
      replace_contact
          (record {
            rdx_fingerprint = rdx;
            nostr_pubkey = I.to_hex nostr_pubkey;
            user_alias = user_alias;
            signal_identity_key = bundle;
            first_seen = now;
            last_updated = now;
          })
          s,
    )
    pure rdx

abbrev pub alias_is : String → ContactRow → Bool
alias_is a c = elim c.user_alias [ none ↦ false | some b ↦ b == a ]

-- `WHERE rdx_fingerprint = ?1 OR user_alias = ?1 OR nostr_pubkey = ?1`
abbrev pub is_named : String → ContactRow → Bool
is_named i c = c.rdx_fingerprint == i || (alias_is i c || c.nostr_pubkey == i)

abbrev pub assign_alias : String → ℕ → ContactRow → ContactRow
assign_alias a now c = record c { user_alias = some a; last_updated = now }

-- `ORDER BY last_updated DESC`
abbrev pub updated_later : ContactRow → ContactRow → Bool
updated_later c d = ltb d.last_updated c.last_updated

-- Another contact has the alias that the query found.
abbrev pub is_taken : Option ContactRow → String → Bool
is_taken none fp = false
is_taken (some c) fp = not (c.rdx_fingerprint == fp)

module _ {SessionRecord : Type 0}
    (load_session : ProtocolAddress → Outcome (Option SessionRecord)) where
  -- The answer for a row, with the session of device 1.
  unfoldable pub contact_info : ContactRow → Outcome ContactInfo
  contact_info c =
      then_outcome (load_session (record { name = codes c.rdx_fingerprint; device_id = 1 })) (λ r.
        ok (record {
          rdx_fingerprint = c.rdx_fingerprint;
          nostr_pubkey = c.nostr_pubkey;
          user_alias = c.user_alias;
          has_active_session = is_some r;
        }))

  unfoldable pub lookup_contact : Database → String → Outcome ContactInfo
  unfolding contact_info
  lookup_contact s identifier = elim (query_row (is_named identifier) s.contacts) [
    | none ↦ err storage
    | some c ↦ contact_info c
  ]

  unfoldable pub assign_contact_alias : ℕ → String → String → Exec Database Unit
  unfolding lookup_contact
  assign_contact_alias now identifier new_alias = do
    contact ← reads (λ s. lookup_contact s identifier)
    λ s.
        if is_taken (query_row (alias_is new_alias) s.contacts) contact.rdx_fingerprint
        then (err invalid_input, s)
        else if is_some (query_row (of_contact contact.rdx_fingerprint) s.contacts)
        then (
          ok tt,
          record s {
            contacts =
                update (of_contact contact.rdx_fingerprint) (assign_alias new_alias now) s.contacts;
          },
        )
        else (err invalid_input, s)

  -- The loop over the rows.
  unfoldable pub contact_infos : List ContactRow → Outcome (List ContactInfo)
  unfolding contact_info
  contact_infos [] = ok []
  contact_infos (c ∷ contacts) =
      then_outcome (contact_info c)
        (λ info. then_outcome (contact_infos contacts) (λ result. ok (info ∷ result)))

  unfoldable pub list_contacts :
      OrderBy ContactRow updated_later → Database → Outcome (List ContactInfo)
  unfolding contact_infos
  list_contacts O s = contact_infos (O.sort s.contacts)
