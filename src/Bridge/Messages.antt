-- ===== src/Bridge/Messages.antt =====
-- The messages of the bridge: `encrypt_message` and `decrypt_message` of
-- rust/signal_bridge/src/lib.rs, with the contacts and the history that they read and write.
-- `timestamp` is the clock in milliseconds, `now` in seconds.
use radix_relay.Prelude.{
  ℕ, Bool, false, Option, none, some, List, [], ◌∷◌, String, if◌then◌else◌, ◌==◌, string_eq,
  is_some,
}
use radix_relay.Exec.{
  Exec, Outcome, ok, err, panic, invalid_input, session_not_found, serialization, pure, raise,
  reads, ◌>>=◌, ◌>>◌,
}
use radix_relay.Database.{Database}
use radix_relay.Memory.Address.{ProtocolAddress}
use radix_relay.NostrIdentity.{IdentityApi}
use radix_relay.StorageTrait.{StorageContainer, Storage}
use radix_relay.StorageTrait.Peers.{SessionOps}
use radix_relay.History.{store_incoming_message, store_outgoing_message}
use radix_relay.Contacts.{
  ContactInfo, lookup_contact, add_contact_from_identity_key,
  generate_identity_fingerprint_from_key,
}
use radix_relay.Bridge.Sessions.{first_device}

-- The storage, and the tables of contacts and history behind its connection, which
-- `contact_manager` shares.
pub record SignalBridge (C : StorageContainer) : Type 0 where
  pub storage : Storage C
  pub database : Database

pub record DecryptionResult : Type 0 where
  pub plaintext : List ℕ
  pub should_republish_bundle : Bool

-- libsignal's messages, and the operations of `ExtendedStorageOps` that run its ratchet on the
-- stores.
pub record CipherApi (C : StorageContainer) (I : IdentityApi) : Type 1 where
  pub PreKeySignalMessage : Type 0
  pub SignalMessage : Type 0
  pub parse_pre_key : List ℕ → Option PreKeySignalMessage
  pub parse_signal : List ℕ → Option SignalMessage
  pub identity_key : PreKeySignalMessage → I.IdentityKey
  pub pre_key_id : PreKeySignalMessage → Option ℕ
  pub encrypt : ProtocolAddress → List ℕ → Exec (Storage C) (List ℕ)
  pub decrypt_pre_key : ProtocolAddress → PreKeySignalMessage → Exec (Storage C) (List ℕ)
  pub decrypt_signal : ProtocolAddress → SignalMessage → Exec (Storage C) (List ℕ)

module _ {C : StorageContainer} {B : Type 0} where
  abbrev pub on_storage : Exec (Storage C) B → Exec (SignalBridge C) B
  on_storage m s = let (r, t) = m s.storage in (r, record s { storage = t })

  abbrev pub on_database : Exec Database B → Exec (SignalBridge C) B
  on_database m s = let (r, t) = m s.database in (r, record s { database = t })

-- `if let Err(e) = .. { eprintln!(..) }`
abbrev pub warned : Outcome ℕ → Outcome (Unit {0})
warned (ok _) = ok tt
warned (err _) = ok tt
warned panic = panic

abbrev pub or_warn : Exec Database ℕ → Exec Database Unit
or_warn m s = let (r, t) = m s in (warned r, t)

-- `Ok(contact) => contact.rdx_fingerprint, Err(_) => peer.to_string()`
abbrev pub fingerprint_or : Outcome ContactInfo → String → Outcome String
fingerprint_or (ok contact) peer = ok contact.rdx_fingerprint
fingerprint_or (err _) peer = ok peer
fingerprint_or panic peer = panic

-- `.is_ok()` of an awaited result.
abbrev pub contact_found : Outcome ContactInfo → Outcome Bool
contact_found (ok _) = ok Bool.true
contact_found (err _) = ok false
contact_found panic = panic

module _ {C : StorageContainer} (I : IdentityApi) (S : SessionOps C.Sessions)
    (E : CipherApi C I) where
  abbrev pub contact_of : SignalBridge C → String → Outcome ContactInfo
  contact_of s identifier =
      lookup_contact (S.load_session s.storage.session_store) s.database identifier

  abbrev pub has_session : Option S.SessionRecord → Exec (SignalBridge C) Unit
  has_session none = raise session_not_found
  has_session (some _) = pure tt

  abbrev pub encrypt_named : String → List ℕ → ℕ → Exec (SignalBridge C) (List ℕ)
  encrypt_named peer plaintext timestamp = do
    session_address ← reads (λ s. fingerprint_or (contact_of s peer) peer)
    session ← reads (λ s. S.load_session s.storage.session_store (first_device session_address))
    has_session session
    ciphertext ← on_storage (E.encrypt (first_device session_address) plaintext)
    on_database (or_warn (store_outgoing_message session_address timestamp plaintext))
    pure ciphertext

  unfoldable pub encrypt_message : String → List ℕ → ℕ → Exec (SignalBridge C) (List ℕ)
  encrypt_message peer plaintext timestamp =
      if peer == "" then raise invalid_input else encrypt_named peer plaintext timestamp

  -- What follows once the sender's address is known.
  abbrev pub record_incoming : String → Bool → List ℕ → ℕ → Exec (SignalBridge C) DecryptionResult
  record_incoming session_address pre_key_consumed plaintext timestamp = do
    on_database (
        or_warn (
          store_incoming_message session_address timestamp plaintext pre_key_consumed
            pre_key_consumed))
    pure (record { plaintext = plaintext; should_republish_bundle = pre_key_consumed })

  -- `if !contact_exists { add_contact_from_identity_key(..)? }`
  abbrev pub add_unless : Bool → ℕ → I.IdentityKey → Exec (SignalBridge C) Unit
  add_unless Bool.true now sender_identity = pure tt
  add_unless false now sender_identity = do
    on_database (add_contact_from_identity_key I now sender_identity)
    pure tt

  unfoldable pub decrypt_first :
      E.PreKeySignalMessage → ℕ → ℕ → Exec (SignalBridge C) DecryptionResult
  unfolding generate_identity_fingerprint_from_key
  decrypt_first message timestamp now = do
    let rdx_fingerprint = generate_identity_fingerprint_from_key I (E.identity_key message)
    contact_exists ← reads (λ s. contact_found (contact_of s rdx_fingerprint))
    add_unless contact_exists now (E.identity_key message)
    plaintext ← on_storage (E.decrypt_pre_key (first_device rdx_fingerprint) message)
    record_incoming rdx_fingerprint (is_some (E.pre_key_id message)) plaintext timestamp

  abbrev pub decrypt_next : String → E.SignalMessage → ℕ → Exec (SignalBridge C) DecryptionResult
  decrypt_next peer_hint message timestamp = do
    contact ← reads (λ s. contact_of s peer_hint)
    plaintext ← on_storage (E.decrypt_signal (first_device contact.rdx_fingerprint) message)
    record_incoming contact.rdx_fingerprint false plaintext timestamp

  abbrev pub decrypt_signal_message :
      Option E.SignalMessage → String → ℕ → Exec (SignalBridge C) DecryptionResult
  decrypt_signal_message none peer_hint timestamp = raise serialization
  decrypt_signal_message (some message) peer_hint timestamp =
      if peer_hint == "" then raise invalid_input else decrypt_next peer_hint message timestamp

  unfoldable pub decrypt_parsed :
      Option E.PreKeySignalMessage
      → Option E.SignalMessage
      → String
      → ℕ
      → ℕ
      → Exec (SignalBridge C) DecryptionResult
  unfolding decrypt_first
  decrypt_parsed (some message) m peer_hint timestamp now = decrypt_first message timestamp now
  decrypt_parsed none m peer_hint timestamp now = decrypt_signal_message m peer_hint timestamp

  unfoldable pub decrypt_message : String → List ℕ → ℕ → ℕ → Exec (SignalBridge C) DecryptionResult
  unfolding decrypt_parsed
  decrypt_message peer_hint [] timestamp now = raise invalid_input
  decrypt_message peer_hint (b ∷ bytes) timestamp now =
      decrypt_parsed (E.parse_pre_key (b ∷ bytes)) (E.parse_signal (b ∷ bytes)) peer_hint timestamp
        now
