-- ===== src/Bridge/Peering.antt =====
-- Getting to know a peer: `add_contact_and_establish_session`, `derive_nostr_keypair`,
-- `derive_peer_nostr_key` and `generate_node_fingerprint` of rust/signal_bridge/src/lib.rs. `now` is
-- the clock in seconds.
use radix_relay.Prelude.{ℕ, Option, none, some, List, String, if◌then◌else◌, Eq, ◌==◌}
use radix_relay.Exec.{
  Exec, Outcome, ok, err, panic, invalid_input, storage, session_not_found, raise, pure, reads,
  lift, ◌>>=◌, ◌>>◌,
}
use radix_relay.Memory.Address.{ProtocolAddress}
use radix_relay.NostrIdentity.{
  IdentityApi, derive_from_signal_identity, derive_public_key_from_peer_identity,
}
use radix_relay.StorageTrait.{StorageContainer}
use radix_relay.StorageTrait.Peers.{SessionOps}
use radix_relay.Contacts.{add_contact_from_bundle, generate_identity_fingerprint_from_key}
use radix_relay.Bridge.Sessions.{first_device}
use radix_relay.Bridge.Messages.{
  SignalBridge, CipherApi, on_storage, on_database, fingerprint_or, contact_of,
}
use radix_relay.Bridge.Bundles.{BundleApi, SerializablePreKeyBundle, or_protocol, establish_session}

abbrev pub or_invalid_input {ℓ} : {A : Type ℓ} → Option A → Outcome A
or_invalid_input none = err invalid_input
or_invalid_input (some a) = ok a

-- `.map_err(|e| SignalBridgeError::Storage(..))`
abbrev pub or_storage {ℓ} : {A : Type ℓ} → Outcome A → Outcome A
or_storage (ok a) = ok a
or_storage (err _) = err storage
or_storage panic = panic

abbrev pub identity_bytes : Option SerializablePreKeyBundle → Option (List ℕ)
identity_bytes none = none
identity_bytes (some b) = some b.identity_key

-- `get_own_key` is the public identity key of `get_identity_key_pair`.
module _ {C : StorageContainer} (I : IdentityApi) (P : BundleApi C)
    (get_own_key : C.Identities → Outcome I.IdentityKey) ⦃e : Eq I.IdentityKey⦄ where
  abbrev pub contact_and_session : List ℕ → Option String → ℕ → Exec (SignalBridge C) String
  contact_and_session bundle_bytes user_alias now = do
    rdx ← on_database (
        add_contact_from_bundle I (λ b. identity_bytes (P.from_bytes b)) now bundle_bytes
          user_alias)
    on_storage (establish_session P rdx bundle_bytes)
    pure rdx

  unfoldable pub add_contact_and_establish_session :
      List ℕ → Option String → ℕ → Exec (SignalBridge C) String
  add_contact_and_establish_session bundle_bytes user_alias now = do
    bundle ← lift (or_invalid_input (P.from_bytes bundle_bytes))
    bundle_identity_key ← lift (or_protocol (I.decode bundle.identity_key))
    our_identity_key ← reads (λ s. or_storage (get_own_key s.storage.identity_store))
    if bundle_identity_key == our_identity_key
        then raise invalid_input
        else contact_and_session bundle_bytes user_alias now

module _ {C : StorageContainer} (I : IdentityApi)
    (get_identity_key_pair : C.Identities → Outcome I.IdentityKeyPair) where
  unfoldable pub derive_nostr_keypair : Exec (SignalBridge C) I.Keys
  derive_nostr_keypair = do
    identity_key_pair ← reads (λ s. get_identity_key_pair s.storage.identity_store)
    lift (derive_from_signal_identity I identity_key_pair)

  unfoldable pub generate_node_fingerprint : Exec (SignalBridge C) String
  unfolding generate_identity_fingerprint_from_key
  generate_node_fingerprint = do
    identity_key_pair ← reads (λ s. get_identity_key_pair s.storage.identity_store)
    pure (generate_identity_fingerprint_from_key I (I.identity_key identity_key_pair))

module _ {C : StorageContainer} (I : IdentityApi) (S : SessionOps C.Sessions) (E : CipherApi C I)
    (get_identity : C.Identities → ProtocolAddress → Outcome (Option I.IdentityKey)) where
  abbrev pub identity_or_missing : Option I.IdentityKey → Outcome I.IdentityKey
  identity_or_missing none = err session_not_found
  identity_or_missing (some k) = ok k

  unfoldable pub derive_peer_nostr_key : String → Exec (SignalBridge C) I.PublicKey
  derive_peer_nostr_key peer = do
    session_address ← reads (λ s. fingerprint_or (contact_of I S E s peer) peer)
    stored ← reads (λ s. get_identity s.storage.identity_store (first_device session_address))
    peer_identity ← lift (identity_or_missing stored)
    lift (derive_public_key_from_peer_identity I peer_identity)
