-- ===== src/Tests/Recording.antt =====
-- A message to a contact, and a first message of a sender that is none yet.
use radix_relay.Prelude.{
  ℕ, ◌≡◌, refl, true, false, Option, none, some, List, [], ◌∷◌, String, string_eq, arith,
}
use radix_relay.Prelude.Assoc.{lookup}
use radix_relay.Exec.{ok}
use radix_relay.Sql.Tables.{query_row}
use radix_relay.Database.{ConversationRow}
use radix_relay.NostrIdentity.{derive_public_key_from_peer_identity}
use radix_relay.History.Types.{incoming, outgoing}
use radix_relay.History.Invariant.{IsValid}
use radix_relay.History.Storing.{IsStored}
use radix_relay.Contacts.{lookup_contact, generate_identity_fingerprint_from_key}
use radix_relay.Bridge.Sessions.{first_device}
use radix_relay.Bridge.Messages.{SignalBridge, CipherApi, encrypt_message, decrypt_message}
use radix_relay.StorageTrait.Ops.{RatchetApi}
use radix_relay.Bridge.Ratchet.{WireApi, ratchet_cipher}
use radix_relay.Bridge.Sending.{KeepsKeys, encrypt_message-KeepsKeys}
use radix_relay.Bridge.Recording.{
  HasSender, with_sender, encrypt_message-recorded, decrypt_message-recorded,
}
use radix_relay.Sqlite.Storage.{SqliteContainer}
use radix_relay.Sqlite.Sessions.{load_session}
use radix_relay.Tests.Peers.{identity_api}
use radix_relay.Tests.Messages.{two_messages, two_messages-IsValid}
use radix_relay.Tests.Files.{sqlite_api, no_stores, new_file}
use radix_relay.Tests.Reset.{session_ops}

-- A ratchet that adds one to each byte; a message that starts with 3 opens a session.
abbrev first_of : List ℕ → Option (ℕ × List ℕ)
first_of [] = none
first_of (b ∷ bytes) = some (b, bytes)

abbrev cipher_api : CipherApi (SqliteContainer sqlite_api) identity_api
cipher_api = record {
  PreKeySignalMessage = ℕ × List ℕ;
  SignalMessage = List ℕ;
  parse_pre_key = first_of;
  parse_signal = λ bytes. some bytes;
  identity_key = λ m. m.0;
  pre_key_id = λ m. some 4;
  encrypt = λ a text s. (ok (1 ∷ text), s);
  decrypt_pre_key = λ a m s. (ok m.1, s);
  decrypt_signal = λ a m s. (ok m, s);
}

abbrev with_session : SignalBridge (SqliteContainer sqlite_api)
with_session = record {
  storage = record no_stores {
    session_store = record { sessions = (first_device "RDX:a", 4 ∷ []) ∷ [] };
  };
  database = two_messages;
}

abbrev pub fresh : SignalBridge (SqliteContainer sqlite_api)
fresh = record { storage = no_stores; database = new_file.history }

abbrev utf8 : List ℕ → Option String
utf8 bytes = some "hi"

encrypt_message-recorded_example :
    let (r, s') =
      encrypt_message identity_api session_ops cipher_api "Alice" (7 ∷ []) 30 with_session in
    (r ≡ ok (1 ∷ 7 ∷ []))
    × (s'.storage ≡ with_session.storage)
    × ((v : ConversationRow) × IsStored utf8 "RDX:a" 30
          (7 ∷ [])
          outgoing
          false
          false
          0
          two_messages
          s'.database
          v)
unfolding lookup_contact query_row load_session lookup
encrypt_message-recorded_example =
    encrypt_message-recorded identity_api session_ops cipher_api utf8 "Alice" (7 ∷ []) 30
      with_session "RDX:a" 4 (1 ∷ 7 ∷ []) refl refl refl refl (omega arith) two_messages-IsValid
      refl

abbrev ratchet : RatchetApi (SqliteContainer sqlite_api)
ratchet = record {
  Rng = ℕ;
  PreKeyBundle = ℕ;
  CiphertextMessage = List ℕ;
  process_prekey_bundle = λ a bundle now rng t. (ok tt, t);
  message_encrypt = λ text a now rng t. (ok (1 ∷ text), t);
  message_decrypt = λ m a signed rng t. (ok m, t);
}

abbrev wire : WireApi ratchet identity_api
wire = record {
  PreKeySignalMessage = ℕ × List ℕ;
  SignalMessage = List ℕ;
  parse_pre_key = first_of;
  parse_signal = λ bytes. some bytes;
  identity_key = λ m. m.0;
  pre_key_id = λ m. some 4;
  pre_key_message = λ m. m.1;
  signal_message = λ m. m;
  serialize = λ c. c;
}

encrypt_message-KeepsKeys_example :
    let (r, s') =
      encrypt_message identity_api session_ops
        (ratchet_cipher ratchet wire 30 0)
        "Alice"
        (7 ∷ [])
        30
        with_session in
    KeepsKeys with_session r s'
encrypt_message-KeepsKeys_example =
    encrypt_message-KeepsKeys ratchet wire 30 0 session_ops "Alice" (7 ∷ []) 30 with_session

fresh-IsValid : IsValid fresh.database
fresh-IsValid = record {
  unique_ids = tt;
  unique_peers = tt;
  ids_counted = tt;
  unique_messages = tt;
  messages_counted = tt;
  messages_placed = tt;
}

decrypt_message-recorded_example :
    let d = with_sender identity_api session_ops cipher_api false 9 3 fresh.database in
    let (r, s') = decrypt_message identity_api session_ops cipher_api "" (3 ∷ 7 ∷ []) 30 9 fresh in
    (r ≡ ok (record { plaintext = 7 ∷ []; should_republish_bundle = true }))
    × (s'.storage ≡ fresh.storage)
    × IsValid d
    × HasSender false
        (generate_identity_fingerprint_from_key identity_api 3)
        ""
        9
        fresh.database.contacts
        s'.database.contacts
    × ((v : ConversationRow) × IsStored utf8
          (generate_identity_fingerprint_from_key identity_api 3)
          30
          (7 ∷ [])
          incoming
          true
          true
          1
          d
          s'.database
          v)
unfolding lookup_contact query_row derive_public_key_from_peer_identity
    generate_identity_fingerprint_from_key
decrypt_message-recorded_example =
    decrypt_message-recorded identity_api session_ops cipher_api utf8 "" 3 (7 ∷ []) 30 9 fresh
      (3, 7 ∷ []) false (0 ∷ 3 ∷ []) (7 ∷ []) refl refl (λ e. cc) refl
      (record { unique_fingerprints = tt; unique_pubkeys = tt }) fresh-IsValid refl (omega arith)
