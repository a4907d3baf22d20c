-- ===== src/Ffi/Signing.antt =====
-- The JSON of a message that is sent over Nostr, beside the event that was signed for it.
use radix_relay.Prelude.{
  ℕ, ◌<◌, ◌^◌, ◌%◌, ◌≡◌, refl, sym, ◌∙◌, ap, Bool, true, Option, some, List, [], ◌∷◌, ◌++◌, String,
  string_eq, arith,
}
use radix_relay.Exec.{Exec, Outcome, ok, err, panic, continue, u32_mod}
use radix_relay.Memory.Address.{ProtocolAddress}
use radix_relay.NostrIdentity.{IdentityApi, derive_from_signal_identity}
use radix_relay.StorageTrait.{StorageContainer}
use radix_relay.StorageTrait.Tables.{ok-injective}
use radix_relay.StorageTrait.Peers.{SessionOps}
use radix_relay.Bridge.Sessions.{first_device}
use radix_relay.Bridge.Messages.{SignalBridge, CipherApi, fingerprint_or, contact_of}
use radix_relay.Bridge.Peering.{derive_nostr_keypair, derive_peer_nostr_key, identity_or_missing}
use radix_relay.Bridge.Json.{JsonApi, JsonLaws}
use radix_relay.Bridge.Events.{EventApi}
use radix_relay.Bridge.Events as Events
use radix_relay.Ffi.{block_on}
use radix_relay.Ffi.Nostr.{
  texts_of, tags_of, put_signed, sign_value, sign_nostr_event, message_event,
  create_and_sign_encrypted_message,
}

-- The event that a JSON value describes, member by member.
pub record IsEvent (J : JsonApi) (v : J.Value) (created_at kind : ℕ) (tags : List (List String))
    (content pubkey event_id signature : String) : Type 0 where
  pub at : J.as_u64 (J.get v "created_at") ≡ some created_at
  pub of_kind : J.as_u64 (J.get v "kind") ≡ some kind
  pub tag_items : List J.Value
  pub has_tags : J.as_array (J.get v "tags") ≡ some tag_items
  pub same_tags : tags_of J tag_items ≡ tags
  pub has_content : J.as_str (J.get v "content") ≡ some content
  pub by : J.as_str (J.get v "pubkey") ≡ some pubkey
  pub identified : J.as_str (J.get v "id") ≡ some event_id
  pub signed : J.as_str (J.get v "sig") ≡ some signature

module _ {J : JsonApi} (L : JsonLaws J) where
  pub texts_of-array :
      (name value : String)
      → texts_of J (J.array (J.string name ∷ J.string value ∷ [])) ≡ name ∷ value ∷ []
  unfolding texts_of
  texts_of-array name value =
      rw (L.array_back (J.string name ∷ J.string value ∷ []), L.str_back name, L.str_back value)

module _ {J : JsonApi} (L : JsonLaws J) where
  put_signed-object :
      (fields : List (String × J.Value)) (pubkey event_id signature : String)
      → put_signed J (J.object fields) (pubkey, event_id, signature)
        ≡ ok (
            J.object (
              ((fields ++ ("pubkey", J.string pubkey) ∷ []) ++ ("id", J.string event_id) ∷ [])
              ++ ("sig", J.string signature) ∷ []))
  put_signed-object fields pubkey event_id signature = rw (
    L.put-object fields,
    L.put-object (fields ++ ("pubkey", J.string pubkey) ∷ []),
    L.put-object ((fields ++ ("pubkey", J.string pubkey) ∷ []) ++ ("id", J.string event_id) ∷ []),
  )

module _ (runtime : Bool) {C : StorageContainer} {I : IdentityApi} (N : EventApi I) (J : JsonApi)
    (get_identity_key_pair : C.Identities → Outcome I.IdentityKeyPair) where
  sign_value-eq :
      (rng : N.Rng) (v : J.Value) (s : SignalBridge C) (t k : ℕ) (content : String)
      (items : List J.Value) (pair : I.IdentityKeyPair) (keys : I.Keys) (tags : List N.Tag)
      (e : N.Event) (signed : J.Value) (text : J.Text)
      → J.as_u64 (J.get v "created_at") ≡ some t
      → J.as_u64 (J.get v "kind") ≡ some k
      → J.as_str (J.get v "content") ≡ some content
      → J.as_array (J.get v "tags") ≡ some items
      → get_identity_key_pair s.storage.identity_store ≡ ok pair
      → derive_from_signal_identity I pair ≡ ok keys
      → Events.tags_of N (tags_of J items) ≡ ok tags
      → N.to_event rng (k % u32_mod % 2 ^ 16) content tags t keys ≡ some e
      → put_signed J v (I.to_hex (I.public_key keys), N.event_id e, N.signature e) ≡ ok signed
      → J.to_string signed ≡ some text
      → sign_value runtime N J get_identity_key_pair rng v s ≡ (ok text, s)
  unfolding Events.sign_nostr_event derive_nostr_keypair
  sign_value-eq rng v s t k content items pair keys tags e signed text at of_kind has_content
        has_tags own derived parsed made put written =
      rw (at, of_kind, has_content, has_tags, own, derived, parsed, made, put, written)

module _ {J : JsonApi} (L : JsonLaws J) where
  abbrev message_tags : String → String → List J.Value
  message_tags recipient version =
      J.array (J.string "p" ∷ J.string recipient ∷ [])
      ∷ J.array (J.string "radix_version" ∷ J.string version ∷ [])
      ∷ []

  message_tags-texts :
      (recipient version : String)
      → tags_of J (message_tags recipient version)
        ≡ ("p" ∷ recipient ∷ []) ∷ ("radix_version" ∷ version ∷ []) ∷ []
  unfolding tags_of
  message_tags-texts recipient version =
      rw (texts_of-array L "p" recipient, texts_of-array L "radix_version" version)

  -- The event of a message with the three members that signing writes.
  signed_message-IsEvent :
      (recipient content version pubkey event_id signature : String) (timestamp : ℕ) (v : J.Value)
      → timestamp < 2 ^ 64
      → put_signed J
          (message_event J recipient content timestamp version)
          (pubkey, event_id, signature)
        ≡ ok v
      → IsEvent J v timestamp 40001
          (("p" ∷ recipient ∷ []) ∷ ("radix_version" ∷ version ∷ []) ∷ [])
          content
          pubkey
          event_id
          signature
  signed_message-IsEvent recipient content version pubkey event_id signature timestamp v small put =
      let e = ok-injective (sym put ∙ put_signed-object L _ pubkey event_id signature) in
      rw e (record {
        at = ap J.as_u64 (L.get-object _ "created_at") ∙ L.u64_back timestamp small;
        of_kind = ap J.as_u64 (L.get-object _ "kind") ∙ L.u64_back 40001 (omega arith);
        tag_items = message_tags recipient version;
        has_tags = ap J.as_array (L.get-object _ "tags") ∙ L.array_back _;
        same_tags = message_tags-texts recipient version;
        has_content = ap J.as_str (L.get-object _ "content") ∙ L.str_back content;
        by = ap J.as_str (L.get-object _ "pubkey") ∙ L.str_back pubkey;
        identified = ap J.as_str (L.get-object _ "id") ∙ L.str_back event_id;
        signed = ap J.as_str (L.get-object _ "sig") ∙ L.str_back signature;
      })

module _ {T A B : Type 0} where
  -- A step that changes nothing, as its continuation does.
  pub continue-same :
      (r : Outcome A) (k : A → Exec T B) (s : T)
      → ((a : A) → (k a s).1 ≡ s)
      → (continue r k s).1 ≡ s
  continue-same (ok a) k s h = h a
  continue-same (err e) k s h = refl
  continue-same panic k s h = refl

module _ (runtime : Bool) {C : StorageContainer} {I : IdentityApi} (N : EventApi I) (J : JsonApi)
    (get_identity_key_pair : C.Identities → Outcome I.IdentityKeyPair) (S : SessionOps C.Sessions)
    (E : CipherApi C I)
    (get_identity : C.Identities → ProtocolAddress → Outcome (Option I.IdentityKey)) where
  derive_peer_nostr_key-same :
      (peer : String) (s : SignalBridge C) → (derive_peer_nostr_key I S E get_identity peer s).1 ≡ s
  unfolding derive_peer_nostr_key
  derive_peer_nostr_key-same peer s =
      continue-same (fingerprint_or (contact_of I S E s peer) peer) _ s (λ address.
        continue-same (get_identity s.storage.identity_store (first_device address)) _ s
          (λ stored. continue-same (identity_or_missing I S E get_identity stored) _ s (λ k. refl)))

  -- Where a runtime is given, the Nostr keys of this node and of the recipient are derived, its tags
  -- are accepted and the event is made, sending a message returns a JSON text and changes nothing.
  -- The text is read as the event that was signed: of kind 40001, at the time given, with the
  -- recipient's key and the version in its tags, the content given, the public key of this node, and
  -- the id and the signature of the event.
  pub create_and_sign_encrypted_message-IsEvent :
      (L : JsonLaws J) (rng : N.Rng) (session_id content : String) (timestamp : ℕ)
      (version : String) (s : SignalBridge C) (pk : I.PublicKey) (pair : I.IdentityKeyPair)
      (keys : I.Keys) (tags : List N.Tag) (e : N.Event)
      → let recipient = ("p" ∷ I.to_hex pk ∷ []) ∷ ("radix_version" ∷ version ∷ []) ∷ [] in
        runtime ≡ true
        → timestamp < 2 ^ 64
        → (derive_peer_nostr_key I S E get_identity session_id s).0 ≡ ok pk
        → get_identity_key_pair s.storage.identity_store ≡ ok pair
        → derive_from_signal_identity I pair ≡ ok keys
        → Events.tags_of N recipient ≡ ok tags
        → N.to_event rng 40001 content tags timestamp keys ≡ some e
        → (text : J.Text) × (v : J.Value) × (create_and_sign_encrypted_message runtime N J
              get_identity_key_pair S E get_identity rng session_id content timestamp version s
            ≡ (ok text, s))
          × (J.from_str text ≡ some v)
          × IsEvent J v timestamp 40001 recipient content
              (I.to_hex (I.public_key keys))
              (N.event_id e)
              (N.signature e)
  unfolding create_and_sign_encrypted_message sign_nostr_event block_on tags_of
  create_and_sign_encrypted_message-IsEvent L rng session_id content timestamp version s pk pair
        keys tags e there small peer own derived parsed made =
      let v = message_event J (I.to_hex pk) content timestamp version in
      let (unsigned, wrote) = L.written v in
      let put =
        put_signed-object L _ (I.to_hex (I.public_key keys)) (N.event_id e) (N.signature e) in
      let (text, wrote_signed) = L.written _ in
      let items = message_tags L (I.to_hex pk) version in
      let signs =
        sign_value-eq runtime N J get_identity_key_pair rng v s timestamp 40001 content items pair
          keys tags e _ text
          (ap J.as_u64 (L.get-object _ "created_at") ∙ L.u64_back timestamp small)
          (ap J.as_u64 (L.get-object _ "kind") ∙ L.u64_back 40001 (omega arith))
          (ap J.as_str (L.get-object _ "content") ∙ L.str_back content)
          (ap J.as_array (L.get-object _ "tags") ∙ L.array_back _) own derived
          (ap (Events.tags_of N) (message_tags-texts L (I.to_hex pk) version) ∙ parsed) made put
          wrote_signed in
      (
        text,
        _,
        rw (there, peer, derive_peer_nostr_key-same session_id s, wrote, L.text_back v wrote) signs,
        L.text_back _ wrote_signed,
        signed_message-IsEvent L (I.to_hex pk) content version _ _ _ timestamp _ small put,
      )
