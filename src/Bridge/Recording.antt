-- ===== src/Bridge/Recording.antt =====
-- Messages of the bridge as they reach the history.
use radix_relay.Prelude.{
  ℕ, ◌<◌, ◌^◌, ◌≡◌, refl, Bool, true, false, Option, none, some, List, ◌∷◌, String, ◌==◌, string_eq,
  is_some,
}
use radix_relay.Exec.{ok, err, session_not_found}
use radix_relay.Database.{ContactRow, Database, ConversationRow}
use radix_relay.NostrIdentity.{IdentityApi, derive_public_key_from_peer_identity}
use radix_relay.StorageTrait.{StorageContainer}
use radix_relay.StorageTrait.Peers.{SessionOps}
use radix_relay.History.Types.{incoming, outgoing}
use radix_relay.History.Invariant.{IsValid}
use radix_relay.History.Opening.{MayOpen}
use radix_relay.History.Storing.{
  IsStored, store_incoming_message-IsStored, store_outgoing_message-IsStored,
}
use radix_relay.Contacts.Adding.{IsContactTable, IsAdded, add_contact_from_identity_key-IsAdded}
use radix_relay.Contacts.Soundness.{store_incoming-contacts}
use radix_relay.Contacts.Validity.{add_contact_from_identity_key-opens}
use radix_relay.Contacts.{add_contact_from_identity_key, generate_identity_fingerprint_from_key}
use radix_relay.Bridge.Sessions.{first_device}
use radix_relay.Bridge.Messages.{
  SignalBridge, CipherApi, contact_of, fingerprint_or, contact_found, encrypt_message,
  record_incoming, decrypt_first, decrypt_parsed, decrypt_message,
}

-- The contacts are the same where the sender is one of them, and the sender is added otherwise.
abbrev pub HasSender : Bool → String → String → ℕ → List ContactRow → List ContactRow → Type 0
HasSender true fp pk now before after = after ≡ before
HasSender false fp pk now before after = IsAdded fp pk now before after

module _ {C : StorageContainer} (I : IdentityApi) (S : SessionOps C.Sessions)
    (E : CipherApi C I) where
  -- If the peer named by a fingerprint, an alias or a key, or else by its address, has a session for
  -- its first device, and libsignal encrypts, then in a valid database where the conversation may be
  -- opened encrypting returns libsignal's ciphertext and changes the stores as libsignal does; the
  -- plaintext is then in the history, as an outgoing message to that address at the time of the
  -- clock, older messages and other conversations are unchanged, and the database is valid.
  pub encrypt_message-recorded :
      (u : List ℕ → Option String) (peer : String) (plaintext : List ℕ) (timestamp : ℕ)
      (s : SignalBridge C) (fp : String) (session : S.SessionRecord) (ciphertext : List ℕ)
      → (peer == "") ≡ false
      → fingerprint_or (contact_of I S E s peer) peer ≡ ok fp
      → S.load_session s.storage.session_store (first_device fp) ≡ ok (some session)
      → (E.encrypt (first_device fp) plaintext s.storage).0 ≡ ok ciphertext
      → timestamp < 2 ^ 64
      → IsValid s.database
      → MayOpen fp s.database
      → let (r, s') = encrypt_message I S E peer plaintext timestamp s in
        (r ≡ ok ciphertext)
        × (s'.storage ≡ (E.encrypt (first_device fp) plaintext s.storage).1)
        × ((v : ConversationRow) × IsStored u fp timestamp plaintext outgoing false false 0
              s.database s'.database v)
  unfolding encrypt_message
  encrypt_message-recorded u peer plaintext timestamp s fp session ciphertext named known there done
        fits valid may =
      let (stored, kept) =
        store_outgoing_message-IsStored u fp timestamp plaintext s.database fits valid may in
      rw (named, known, there, done, stored) (refl, refl, kept)

  -- Encrypting for a named peer whose first device has no session fails and changes nothing.
  pub encrypt_message-refused :
      (peer : String) (plaintext : List ℕ) (timestamp : ℕ) (s : SignalBridge C) (fp : String)
      → (peer == "") ≡ false
      → fingerprint_or (contact_of I S E s peer) peer ≡ ok fp
      → S.load_session s.storage.session_store (first_device fp) ≡ ok none
      → encrypt_message I S E peer plaintext timestamp s ≡ (err session_not_found, s)
  unfolding encrypt_message
  encrypt_message-refused peer plaintext timestamp s fp named known absent =
      rw (named, known, absent)

  record_incoming-recorded :
      (u : List ℕ → Option String) (fp : String) (k : Bool) (plaintext : List ℕ) (timestamp : ℕ)
      (s : SignalBridge C)
      → timestamp < 2 ^ 64
      → IsValid s.database
      → MayOpen fp s.database
      → let (r, s') = record_incoming I S E fp k plaintext timestamp s in
        (r ≡ ok (record { plaintext = plaintext; should_republish_bundle = k }))
        × (s'.storage ≡ s.storage)
        × (s'.database.contacts ≡ s.database.contacts)
        × ((v : ConversationRow) × IsStored u fp timestamp plaintext incoming k k 1 s.database
              s'.database v)
  record_incoming-recorded u fp k plaintext timestamp s fits valid may =
      let (stored, kept) =
        store_incoming_message-IsStored u fp timestamp plaintext k k s.database fits valid may in
      rw stored (refl, refl, store_incoming-contacts fp timestamp plaintext k k s.database, kept)

  -- The database before the plaintext is recorded: with the sender added if it is no contact.
  unfoldable pub with_sender : Bool → ℕ → I.IdentityKey → Database → Database
  unfolding add_contact_from_identity_key
  with_sender true now k d = d
  with_sender false now k d = (add_contact_from_identity_key I now k d).1

  -- If libsignal decrypts a message that opens a session, then in valid tables, where the sender's
  -- Nostr key can be derived, the look-up of the sender answers, and its conversation may be opened if
  -- it is a contact, decrypting returns libsignal's plaintext and asks for a new bundle exactly when
  -- the message used a one-time pre-key. Then the sender has been added to the
  -- contacts if it was none of them, and they are unchanged if it was one; and the plaintext is in the history, as an incoming
  -- message of the sender's fingerprint at the time of the clock, in a valid database.
  pub decrypt_message-recorded :
      (u : List ℕ → Option String) (peer_hint : String) (byte : ℕ) (bytes : List ℕ)
      (timestamp now : ℕ) (s : SignalBridge C) (message : E.PreKeySignalMessage) (known : Bool)
      (pk : I.PublicKey) (plaintext : List ℕ)
      → let k = E.identity_key message in
        let fp = generate_identity_fingerprint_from_key I k in
        let d = with_sender known now k s.database in
        E.parse_pre_key (byte ∷ bytes) ≡ some message
        → contact_found (contact_of I S E s fp) ≡ ok known
        → (known ≡ true → MayOpen fp s.database)
        → derive_public_key_from_peer_identity I k ≡ ok pk
        → IsContactTable s.database.contacts
        → IsValid s.database
        → (E.decrypt_pre_key (first_device fp) message s.storage).0 ≡ ok plaintext
        → timestamp < 2 ^ 64
        → let (r, s') = decrypt_message I S E peer_hint (byte ∷ bytes) timestamp now s in
          let consumed = is_some (E.pre_key_id message) in
          (r ≡ ok (record { plaintext = plaintext; should_republish_bundle = consumed }))
          × (s'.storage ≡ (E.decrypt_pre_key (first_device fp) message s.storage).1)
          × IsValid d
          × HasSender known fp (I.to_hex pk) now s.database.contacts s'.database.contacts
          × ((v : ConversationRow) × IsStored u fp timestamp plaintext incoming consumed consumed 1
                d s'.database v)
  unfolding decrypt_message decrypt_parsed decrypt_first with_sender
  decrypt_message-recorded u hint b bs ts now s m true pk text parsed seen may derived table valid
        done fits =
      let fp = generate_identity_fingerprint_from_key I (E.identity_key m) in
      let after = (E.decrypt_pre_key (first_device fp) m s.storage).1 in
      let t : SignalBridge C = record { storage = after; database = s.database } in
      let (r, kept, same, stored) =
        record_incoming-recorded u fp (is_some (E.pre_key_id m)) text ts t fits valid (may refl) in
      rw (parsed, seen, done) (r, kept, valid, same, stored)
  decrypt_message-recorded u hint b bs ts now s m false pk text parsed seen may derived table valid
        done fits =
      let k = E.identity_key m in
      let fp = generate_identity_fingerprint_from_key I k in
      let after = (E.decrypt_pre_key (first_device fp) m s.storage).1 in
      let (added, valid', opens) =
        add_contact_from_identity_key-opens I now k s.database table valid derived in
      let d = (add_contact_from_identity_key I now k s.database).1 in
      let t : SignalBridge C = record { storage = after; database = d } in
      let (r, kept, same, stored) =
        record_incoming-recorded u fp (is_some (E.pre_key_id m)) text ts t fits valid' opens in
      let with_contact =
        (add_contact_from_identity_key-IsAdded I now k s.database table derived).1 in
      rw (parsed, seen, added, done) (r, kept, valid', (let e = same in rw e with_contact), stored)
