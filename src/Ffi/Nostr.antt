-- ===== src/Ffi/Nostr.antt =====
-- The functions for C++ on Nostr events and subscriptions, in rust/signal_bridge/src/lib.rs.
use radix_relay.Prelude.{ℕ, ◌%◌, Bool, Option, none, some, List, [], ◌∷◌, String, map}
use radix_relay.Exec.{Exec, Outcome, ok, err, json, missing_field, lift, u32_mod, ◌>>=◌}
use radix_relay.Memory.Address.{ProtocolAddress}
use radix_relay.NostrIdentity.{IdentityApi}
use radix_relay.StorageTrait.{StorageContainer}
use radix_relay.StorageTrait.Peers.{SessionOps}
use radix_relay.Sqlite.Identities.{SqliteIdentityStore}
use radix_relay.Sqlite.Storage.{SqliteApi, SqliteStorage}
use radix_relay.Bridge.Messages.{SignalBridge, CipherApi}
use radix_relay.Bridge.Bundles.{BundleApi}
use radix_relay.Bridge.Peering.{derive_peer_nostr_key}
use radix_relay.Bridge.Json.{JsonApi, Base64}
use radix_relay.Bridge.Events.{EventApi, BundleInfo}
use radix_relay.Bridge.Events as Events
use radix_relay.Bridge.Subscribing as Subscribing
use radix_relay.Ffi.{block_on}

abbrev pub or_json {ℓ} : {A : Type ℓ} → Option A → Outcome A
or_json none = err json
or_json (some a) = ok a

-- `.ok_or("Missing ..")`
abbrev pub or_missing {ℓ} : {A : Type ℓ} → Option A → Outcome A
or_missing none = err missing_field
or_missing (some a) = ok a

abbrev pub items_or_none {ℓ} : {A : Type ℓ} → Option (List A) → List A
items_or_none none = []
items_or_none (some items) = items

abbrev pub text_or_empty : Option String → String
text_or_empty none = ""
text_or_empty (some t) = t

module _ (J : JsonApi) where
  -- The texts of a tag: what is no array has none, and what is no text is empty.
  unfoldable pub texts_of : J.Value → List String
  texts_of tag = map (λ v. text_or_empty (J.as_str v)) (items_or_none (J.as_array tag))

  unfoldable pub tags_of : List J.Value → List (List String)
  unfolding texts_of
  tags_of tags_array = map texts_of tags_array

  abbrev pub put_signed : J.Value → String × String × String → Outcome J.Value
  put_signed event (pubkey, event_id, signature) =
      ((do
        with_pubkey ← lift (J.put event "pubkey" (J.string pubkey))
        with_id ← lift (J.put with_pubkey "id" (J.string event_id))
        lift (J.put with_id "sig" (J.string signature)))
        tt).0

  -- The event of an encrypted message, before it is signed.
  abbrev pub message_event : String → String → ℕ → String → J.Value
  message_event recipient_pubkey encrypted_content timestamp project_version = J.object (
      ("id", J.string "")
      ∷ ("pubkey", J.string "")
      ∷ ("created_at", J.number timestamp)
      ∷ ("kind", J.number 40001)
      ∷ (
        "tags",
        J.array (
            J.array (J.string "p" ∷ J.string recipient_pubkey ∷ [])
            ∷ J.array (J.string "radix_version" ∷ J.string project_version ∷ [])
            ∷ []),
      )
      ∷ ("content", J.string encrypted_content)
      ∷ ("sig", J.string "")
      ∷ [])

module _ (runtime : Bool) {C : StorageContainer} {I : IdentityApi} (N : EventApi I) (J : JsonApi)
    (get_identity_key_pair : C.Identities → Outcome I.IdentityKeyPair) where
  abbrev pub sign_value : N.Rng → J.Value → Exec (SignalBridge C) J.Text
  sign_value rng event = do
    created_at ← lift (or_missing (J.as_u64 (J.get event "created_at")))
    kind ← lift (or_missing (J.as_u64 (J.get event "kind")))
    content ← lift (or_missing (J.as_str (J.get event "content")))
    tags_array ← lift (or_missing (J.as_array (J.get event "tags")))
    signed ←
        Events.sign_nostr_event N get_identity_key_pair rng created_at (kind % u32_mod)
          (tags_of J tags_array) content
    signed_event ← lift (put_signed J event signed)
    lift (or_json (J.to_string signed_event))

  abbrev pub sign_text : N.Rng → J.Text → Exec (SignalBridge C) J.Text
  sign_text rng event_json = do event ← lift (or_json (J.from_str event_json)); sign_value rng event

  unfoldable pub sign_nostr_event : N.Rng → J.Text → Exec (SignalBridge C) J.Text
  unfolding block_on tags_of
  sign_nostr_event rng event_json = block_on runtime (sign_text rng event_json)

  module _ (S : SessionOps C.Sessions) (E : CipherApi C I)
      (get_identity : C.Identities → ProtocolAddress → Outcome (Option I.IdentityKey)) where
    unfoldable pub create_and_sign_encrypted_message :
        N.Rng → String → String → ℕ → String → Exec (SignalBridge C) J.Text
    unfolding block_on sign_nostr_event derive_peer_nostr_key
    create_and_sign_encrypted_message rng session_id encrypted_content timestamp project_version =
        do
          recipient ← block_on runtime (derive_peer_nostr_key I S E get_identity session_id)
          event_json ← lift (
              or_json (
                J.to_string (
                  message_event J (I.to_hex recipient) encrypted_content timestamp
                    project_version)))
          sign_nostr_event rng event_json

  module _ (P : BundleApi C) (B : Base64) where
    unfoldable pub generate_prekey_bundle_announcement :
        N.Rng → String → ℕ → Exec (SignalBridge C) (BundleInfo J.Text)
    unfolding block_on
    generate_prekey_bundle_announcement rng project_version now = block_on runtime (
        Events.generate_prekey_bundle_announcement N J get_identity_key_pair P B rng project_version
          now)

  unfoldable pub generate_empty_bundle_announcement :
      N.Rng → String → ℕ → Exec (SignalBridge C) J.Text
  unfolding block_on
  generate_empty_bundle_announcement rng project_version now =
      block_on runtime (
        Events.generate_empty_bundle_announcement N J get_identity_key_pair rng project_version now)

module _ (runtime : Bool) {A : SqliteApi} where
  unfoldable pub update_last_message_timestamp : ℕ → Exec (SqliteStorage A) Unit
  unfolding block_on
  update_last_message_timestamp timestamp =
      block_on runtime (Subscribing.update_last_message_timestamp timestamp)

  module _ (I : IdentityApi) (J : JsonApi)
      (get_identity_key_pair : SqliteIdentityStore → Outcome I.IdentityKeyPair) where
    unfoldable pub create_subscription_for_self : String → ℕ → Exec (SqliteStorage A) J.Text
    unfolding block_on
    create_subscription_for_self subscription_id since_timestamp = block_on runtime (
        Subscribing.create_subscription_for_self I J get_identity_key_pair subscription_id
          since_timestamp)
