-- ===== src/Ffi/Sessions.antt =====
-- The functions for C++ on messages, sessions and keys, in rust/signal_bridge/src/lib.rs.
-- `timestamp` is the clock in milliseconds, `now` in seconds, but for the keys in milliseconds.
use radix_relay.Prelude.{ℕ, Bool, List, String}
use radix_relay.Exec.{Exec, Outcome, pure, ◌>>=◌}
use radix_relay.NostrIdentity.{IdentityApi}
use radix_relay.DbEncryption.{System}
use radix_relay.StorageTrait.{StorageContainer}
use radix_relay.StorageTrait.Peers.{SessionOps, PeerOps}
use radix_relay.Keys.{KeyApi}
use radix_relay.Sqlite.Storage.{SqliteApi, SqliteContainer, SqliteStorage}
use radix_relay.Sqlite.Storage as Sqlite
use radix_relay.Bridge.{IdentityStore, KeyMaintenanceResult}
use radix_relay.Bridge
use radix_relay.Bridge.Messages as Messages
use radix_relay.Bridge.Messages.{SignalBridge, DecryptionResult, CipherApi, on_storage}
use radix_relay.Bridge.Bundles as Bundles
use radix_relay.Bridge.Bundles.{BundleApi}
use radix_relay.Bridge.Sessions as Sessions
use radix_relay.Bridge.Peering as Peering
use radix_relay.Bridge.Opening as Opening
use radix_relay.Bridge.Opening.{FileCipher, Disk}
use radix_relay.Ffi.{block_on}
use radix_relay.Ffi.Records.{PreKeyBundleWithMetadata}

module _ (runtime overflow_checks : Bool) {A : SqliteApi} (K : KeyApi (SqliteContainer A))
    (I : IdentityStore (SqliteContainer A) K) (system : System) {Rng : Type 0}
    (fill_bytes : Rng → ℕ → List ℕ) (F : FileCipher A) where
  unfoldable pub new_signal_bridge :
      Rng → (ℕ → K.Rng) → ℕ → List ℕ → Exec (Disk F.DbFile) (SqliteStorage A)
  unfolding block_on
  new_signal_bridge key_rng rng now db_path =
      block_on runtime (Opening.new overflow_checks K I system fill_bytes F key_rng rng now db_path)

module _ (runtime : Bool) {C : StorageContainer} (I : IdentityApi) (S : SessionOps C.Sessions)
    (E : CipherApi C I) where
  unfoldable pub encrypt_message : String → List ℕ → ℕ → Exec (SignalBridge C) (List ℕ)
  unfolding block_on
  encrypt_message peer plaintext timestamp =
      block_on runtime (Messages.encrypt_message I S E peer plaintext timestamp)

  -- `ffi::DecryptionResult` has the fields of the bridge's.
  unfoldable pub decrypt_message : String → List ℕ → ℕ → ℕ → Exec (SignalBridge C) DecryptionResult
  unfolding block_on
  decrypt_message peer ciphertext timestamp now = do
    result ← block_on runtime (Messages.decrypt_message I S E peer ciphertext timestamp now)
    pure (record {
      plaintext = result.plaintext;
      should_republish_bundle = result.should_republish_bundle;
    })

module _ (runtime : Bool) {C : StorageContainer} (P : BundleApi C) where
  unfoldable pub establish_session : String → List ℕ → Exec (SignalBridge C) Unit
  unfolding block_on
  establish_session peer bundle =
      block_on runtime (on_storage (Bundles.establish_session P peer bundle))

  unfoldable pub generate_pre_key_bundle : Exec (SignalBridge C) PreKeyBundleWithMetadata
  unfolding block_on
  generate_pre_key_bundle = do
    (bundle_bytes, pre_key_id, signed_pre_key_id, kyber_pre_key_id) ←
        block_on runtime (on_storage (Bundles.generate_pre_key_bundle P))
    pure (record {
      bundle_bytes = bundle_bytes;
      pre_key_id = pre_key_id;
      signed_pre_key_id = signed_pre_key_id;
      kyber_pre_key_id = kyber_pre_key_id;
    })

module _ (runtime : Bool) {C : StorageContainer} (S : SessionOps C.Sessions)
    (P : PeerOps C.Identities) where
  unfoldable pub clear_peer_session : String → Exec (SignalBridge C) Unit
  unfolding block_on
  clear_peer_session peer = block_on runtime (on_storage (Sessions.clear_peer_session S P peer))

  unfoldable pub clear_all_sessions : Exec (SignalBridge C) Unit
  unfolding block_on
  clear_all_sessions = block_on runtime (on_storage (Sessions.clear_all_sessions S P))

  module _ (overflow_checks : Bool) (K : KeyApi C) (I : IdentityStore C K) where
    unfoldable pub reset_identity : (ℕ → K.Rng) → ℕ → Exec (SignalBridge C) Unit
    unfolding block_on
    reset_identity rng now =
        block_on runtime (on_storage (Sessions.reset_identity S P overflow_checks K I rng now))

module _ (runtime overflow_checks : Bool) {C : StorageContainer} (K : KeyApi C)
    (I : IdentityStore C K) where
  -- `ffi::KeyMaintenanceResult` has the fields of the bridge's.
  unfoldable pub perform_key_maintenance :
      (ℕ → K.Rng) → ℕ → Exec (SignalBridge C) KeyMaintenanceResult
  unfolding block_on
  perform_key_maintenance rng now = do
    result ←
        block_on runtime (on_storage (Bridge.perform_key_maintenance overflow_checks K I rng now))
    pure (record {
      signed_pre_key_rotated = result.signed_pre_key_rotated;
      kyber_pre_key_rotated = result.kyber_pre_key_rotated;
      pre_keys_replenished = result.pre_keys_replenished;
    })

module _ {A : SqliteApi} where
  unfoldable pub record_published_bundle : ℕ → ℕ → ℕ → ℕ → Exec (SqliteStorage A) Unit
  record_published_bundle now pre_key_id signed_pre_key_id kyber_pre_key_id =
      Sqlite.record_published_bundle now pre_key_id signed_pre_key_id kyber_pre_key_id

module _ (runtime : Bool) {C : StorageContainer} (I : IdentityApi)
    (get_identity_key_pair : C.Identities → Outcome I.IdentityKeyPair) where
  unfoldable pub generate_node_fingerprint : Exec (SignalBridge C) String
  unfolding block_on
  generate_node_fingerprint =
      block_on runtime (Peering.generate_node_fingerprint I get_identity_key_pair)
