-- ===== src/Tests/Nostr.antt =====
-- Messages and announcements between two nodes, over a small JSON.
use radix_relay.Prelude.{
  ℕ, ◌≡◌, refl, Bool, true, Option, none, some, List, [], ◌∷◌, String, nat_eq, string_eq, arith,
}
use radix_relay.Exec.{Outcome, ok}
use radix_relay.Memory.Address.{ProtocolAddress}
use radix_relay.Sql.Tables.{query_row}
use radix_relay.NostrIdentity.{derive_from_signal_identity, derive_public_key_from_peer_identity}
use radix_relay.Contacts.{lookup_contact, generate_identity_fingerprint_from_key}
use radix_relay.Contacts.Adding.{IsAdded}
use radix_relay.Sqlite.Identities.{SqliteIdentityStore}
use radix_relay.Sqlite.Storage.{SqliteContainer, SqliteStorage}
use radix_relay.Bridge.Bundles.{BundleParts}
use radix_relay.Bridge.Exchange.{establish_session-generated}
use radix_relay.Bridge.Json.{Base64}
use radix_relay.Bridge.Messages.{SignalBridge, CipherApi}
use radix_relay.Bridge.Peering.{derive_peer_nostr_key}
use radix_relay.Bridge.Subscribing.{update_last_message_timestamp}
use radix_relay.Bridge.Events.{tags_of, bundle_tags, generate_prekey_bundle_announcement}
use radix_relay.History.Keeping.{mark_read, remove_conversation}
use radix_relay.Contacts.Soundness.{IsSound}
use radix_relay.Bridge.Calls.{
  BridgeCall, encrypt, decrypt, add_contact, meet, assign_alias, announce_bundle, on_history,
  after_bridge_calls, after_bridge_calls-IsSound,
}
use radix_relay.Ffi.Announcing.{
  generate_prekey_bundle_announcement-IsEvent, announced_bundle-IsAdded,
}
use radix_relay.Ffi.Contacts.{
  add_contact_and_establish_session_from_base64, extract_rdx_from_bundle_base64,
}
use radix_relay.Ffi.Nostr.{create_and_sign_encrypted_message}
use radix_relay.Ffi.Signing.{IsEvent, create_and_sign_encrypted_message-IsEvent}
use radix_relay.Tests.Files.{sqlite_api, no_stores, new_file, running}
use radix_relay.Tests.Exchange.{bundle_api, bundle_laws, stocked, sent, generated}
use radix_relay.Tests.Reset.{session_ops}
use radix_relay.Tests.Messages.{two_messages, two_messages-IsValid}
use radix_relay.Tests.Recording.{fresh}
use radix_relay.Tests.Meeting.{decoding_api, own_key, received}
use radix_relay.Tests.Values.{json_api, json_laws, event_api}

abbrev cipher_api : CipherApi (SqliteContainer sqlite_api) decoding_api
cipher_api = record {
  PreKeySignalMessage = ℕ;
  SignalMessage = List ℕ;
  parse_pre_key = λ bytes. none;
  parse_signal = λ bytes. some bytes;
  identity_key = λ m. m;
  pre_key_id = λ m. none;
  encrypt = λ a text s. (ok (1 ∷ text), s);
  decrypt_pre_key = λ a m s. (ok [], s);
  decrypt_signal = λ a m s. (ok m, s);
}

-- The key pair of the node that sends, and the key that it has stored for every peer.
abbrev sender_pair : SqliteIdentityStore → Outcome (ℕ × ℕ)
sender_pair s = ok (7, 8)

abbrev stored_key : SqliteIdentityStore → ProtocolAddress → Outcome (Option ℕ)
stored_key s a = ok (some 5)

abbrev recipient_tags : List (List String)
recipient_tags = ("p" ∷ "" ∷ []) ∷ ("radix_version" ∷ "1.0" ∷ []) ∷ []

create_and_sign_encrypted_message-IsEvent_example :
    (text : json_api.Text) × (v : json_api.Value) × (create_and_sign_encrypted_message true
        event_api json_api sender_pair session_ops cipher_api stored_key 3 "bob" "c0de" 1700 "1.0"
        fresh
      ≡ (ok text, fresh))
    × (json_api.from_str text ≡ some v)
    × IsEvent json_api v 1700 40001 recipient_tags "c0de" "" "c0de" "sig"
unfolding derive_peer_nostr_key lookup_contact query_row derive_public_key_from_peer_identity
    derive_from_signal_identity tags_of
create_and_sign_encrypted_message-IsEvent_example =
    create_and_sign_encrypted_message-IsEvent true event_api json_api sender_pair session_ops
      cipher_api stored_key json_laws 3 "bob" "c0de" 1700 "1.0" fresh (0 ∷ 5 ∷ []) (7, 8) (7 ∷ [])
      recipient_tags (40001, "c0de", 1700) refl (omega arith) refl refl refl refl refl

-- The node that announces its bundle.
abbrev announcer : SignalBridge (SqliteContainer sqlite_api)
announcer = record { storage = stocked; database = new_file.history }

abbrev announcer_pair : SqliteIdentityStore → Outcome (ℕ × ℕ)
announcer_pair s = ok (5, 6)

abbrev small_base64 : Base64
small_base64 = record { encode = λ bytes. "CQEB"; decode = λ t. some sent }

generate_prekey_bundle_announcement-IsEvent_example :
    let fp = generate_identity_fingerprint_from_key decoding_api 5 in
    let (r, s') =
      generate_prekey_bundle_announcement event_api json_api announcer_pair bundle_api small_base64
        3 "1.0" 1700 announcer in
    (text : json_api.Text) × (v : json_api.Value) × (r
      ≡ ok (record {
        announcement_json = text;
        pre_key_id = 3;
        signed_pre_key_id = 1;
        kyber_pre_key_id = 4;
      }))
    × (json_api.from_str text ≡ some v)
    × IsEvent json_api v 1700 30078 (bundle_tags fp "1.0" 1700) "CQEB" "" "CQEB" "sig"
    × (s'.storage ≡ stocked)
    × IsAdded fp "" 1700 announcer.database.contacts s'.database.contacts
unfolding derive_public_key_from_peer_identity derive_from_signal_identity tags_of
generate_prekey_bundle_announcement-IsEvent_example =
    let fp = generate_identity_fingerprint_from_key decoding_api 5 in
    generate_prekey_bundle_announcement-IsEvent event_api json_api bundle_api small_base64
      announcer_pair json_laws 3 "1.0" 1700 announcer sent 3 1 4 received 5 (0 ∷ 5 ∷ []) (5, 6)
      (5 ∷ []) (bundle_tags fp "1.0" 1700) (30078, "CQEB", 1700) (omega arith) generated refl refl
      refl (record { unique_fingerprints = tt; unique_pubkeys = tt }) refl refl refl refl

-- The announcer meets the sender of a bundle, names it, sends to it and hears from it, reads and
-- forgets the conversation, and announces its own bundle.
abbrev day : List (BridgeCall ℕ)
day =
    add_contact 9 sent (some "Bob")
    ∷ meet sent none 10
    ∷ assign_alias 11 "Bob" "Bobby"
    ∷ encrypt "Bobby" (7 ∷ []) 12
    ∷ decrypt "Bobby" (1 ∷ 7 ∷ []) 13 14
    ∷ on_history (mark_read "Bobby")
    ∷ on_history (remove_conversation "Bobby")
    ∷ announce_bundle 3 "1.0" 1700
    ∷ []

abbrev talking : SignalBridge (SqliteContainer sqlite_api)
talking = record announcer { database = two_messages }

after_bridge_calls-IsSound_example :
    IsSound
      (after_bridge_calls event_api json_api announcer_pair own_key session_ops cipher_api
        bundle_api small_base64 day talking).database
after_bridge_calls-IsSound_example =
    after_bridge_calls-IsSound event_api json_api announcer_pair own_key session_ops cipher_api
      bundle_api small_base64 day talking
      (record {
        history = two_messages-IsValid;
        contacts = record { unique_fingerprints = (tt, tt); unique_pubkeys = (tt, tt) };
      })

abbrev announced_bundle : BundleParts Bool ℕ ℕ ℕ
announced_bundle =
    (establish_session-generated bundle_api bundle_laws stocked no_stores "bob" sent 3 1 4 refl
      generated).0

announced_bundle-IsAdded_example :
    let fp = generate_identity_fingerprint_from_key decoding_api 5 in
    let (q, r') =
      add_contact_and_establish_session_from_base64 true decoding_api bundle_api own_key
        small_base64 "CQEB" "Alice" 9 fresh in
    (extract_rdx_from_bundle_base64 decoding_api bundle_api small_base64 "CQEB" fresh
      ≡ (ok fp, fresh))
    × (q ≡ ok fp)
    × IsAdded fp "" 9 fresh.database.contacts r'.database.contacts
    × (r'.storage ≡ no_stores)
unfolding derive_public_key_from_peer_identity
announced_bundle-IsAdded_example =
    announced_bundle-IsAdded true decoding_api bundle_api small_base64 own_key bundle_laws stocked
      fresh sent 3 1 4 announced_bundle received 5 6 (0 ∷ 5 ∷ []) "Alice" 9 refl refl
      (establish_session-generated bundle_api bundle_laws stocked no_stores "bob" sent 3 1 4 refl
        generated).1
      generated refl refl refl refl refl (record { unique_fingerprints = tt; unique_pubkeys = tt })
      refl

-- A node that has last seen a message at 1500.
abbrev listening : SqliteStorage sqlite_api
unfolding update_last_message_timestamp
listening = (update_last_message_timestamp 1500 running).1
