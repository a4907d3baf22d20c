-- ===== src/StorageTrait/Ops.antt =====
-- `ExtendedStorageOps` of rust/signal_bridge/src/storage_trait.rs as both backends implement it:
-- each operation is one call of libsignal, which borrows some of the stores. `now` is the clock in
-- milliseconds.
use radix_relay.Prelude.{ℕ, ◌≡◌, refl, List}
use radix_relay.Exec.{Exec}
use radix_relay.Memory.Address.{ProtocolAddress}
use radix_relay.StorageTrait.{StorageContainer, Storage}

-- libsignal's `process_prekey_bundle`, `message_encrypt` and `message_decrypt`, over the stores that
-- each is given; the store of signed pre-keys is only read.
pub record RatchetApi (C : StorageContainer) : Type 1 where
  pub Rng : Type 0
  pub PreKeyBundle : Type 0
  pub CiphertextMessage : Type 0
  pub process_prekey_bundle :
      ProtocolAddress → PreKeyBundle → ℕ → Rng → Exec (C.Sessions × C.Identities) Unit
  pub message_encrypt :
      List ℕ → ProtocolAddress → ℕ → Rng → Exec (C.Sessions × C.Identities) CiphertextMessage
  pub message_decrypt :
      CiphertextMessage
      → ProtocolAddress
      → C.signed_pre_keys.Store
      → Rng
      → Exec (C.Sessions × C.Identities × C.pre_keys.Store × C.kyber_pre_keys.Store) (List ℕ)

module _ {C : StorageContainer} where
  -- A call that borrows the sessions and the identities.
  abbrev pub on_peers : {A : Type 0} → Exec (C.Sessions × C.Identities) A → Exec (Storage C) A
  on_peers m s =
      let (r, t) = m (s.session_store, s.identity_store) in
      (r, record s { session_store = t.0; identity_store = t.1 })

  module _ (R : RatchetApi C) where
    unfoldable pub establish_session_from_bundle :
        ProtocolAddress → R.PreKeyBundle → ℕ → R.Rng → Exec (Storage C) Unit
    establish_session_from_bundle address bundle now rng =
        on_peers (R.process_prekey_bundle address bundle now rng)

    unfoldable pub encrypt_message :
        ProtocolAddress → List ℕ → ℕ → R.Rng → Exec (Storage C) R.CiphertextMessage
    encrypt_message remote_address plaintext now rng =
        on_peers (R.message_encrypt plaintext remote_address now rng)

    unfoldable pub decrypt_message :
        ProtocolAddress → R.CiphertextMessage → R.Rng → Exec (Storage C) (List ℕ)
    decrypt_message remote_address ciphertext rng s =
        let (r, t) =
          R.message_decrypt ciphertext remote_address s.signed_pre_key_store rng
            (s.session_store, s.identity_store, s.pre_key_store, s.kyber_pre_key_store) in
        (
          r,
          record s {
            session_store = t.0;
            identity_store = t.1;
            pre_key_store = t.2;
            kyber_pre_key_store = t.3;
          },
        )

  -- The keys of two storages are the same.
  pub record SameKeys (s t : Storage C) : Type 0 where
    pub same_pre_keys : t.pre_key_store ≡ s.pre_key_store
    pub same_signed : t.signed_pre_key_store ≡ s.signed_pre_key_store
    pub same_kyber : t.kyber_pre_key_store ≡ s.kyber_pre_key_store

  -- What establishes a session or encrypts touches no key.
  pub on_peers-SameKeys :
      {A : Type 0} (m : Exec (C.Sessions × C.Identities) A) (s : Storage C)
      → SameKeys s (on_peers m s).1
  on_peers-SameKeys m s = record { same_pre_keys = refl; same_signed = refl; same_kyber = refl }
