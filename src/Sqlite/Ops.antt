-- ===== src/Sqlite/Ops.antt =====
-- `ExtendedStorageOps` of `SqliteStorage` in sqlite_storage.rs, whose stores are reached through
-- their handles. Unlike the accessors the operations do not ask whether the storage is closed: `close`
-- drops the handles, but a start of a closed storage makes new ones.
use radix_relay.Prelude.{ℕ, Option, none, some, List, [], ◌∷◌}
use radix_relay.Exec.{Exec, panic}
use radix_relay.Memory.Address.{ProtocolAddress}
use radix_relay.StorageTrait.{Storage}
use radix_relay.StorageTrait.Ops as Ops
use radix_relay.StorageTrait.Ops.{RatchetApi}
use radix_relay.Sqlite.Storage.{SqliteApi, SqliteContainer, SqliteStorage, Handle}

module _ {A : SqliteApi} {B : Type 0} where
  -- `expect("Storage not initialized")` of each store that is borrowed.
  abbrev pub with_handles :
      List (Option Handle) → Exec (Storage (SqliteContainer A)) B → Exec (SqliteStorage A) B
  with_handles [] m s =
      let (r, t) = m s.connection.stores in
      (r, record s { connection = record s.connection { stores = t } })
  with_handles (none ∷ handles) m s = (panic, s)
  with_handles (some _ ∷ handles) m s = with_handles handles m s

module _ {A : SqliteApi} (R : RatchetApi (SqliteContainer A)) where
  unfoldable pub establish_session_from_bundle :
      ProtocolAddress → R.PreKeyBundle → ℕ → R.Rng → Exec (SqliteStorage A) Unit
  establish_session_from_bundle address bundle now rng s =
      with_handles (s.session_store ∷ s.identity_store ∷ [])
        (Ops.establish_session_from_bundle R address bundle now rng) s

  unfoldable pub encrypt_message :
      ProtocolAddress → List ℕ → ℕ → R.Rng → Exec (SqliteStorage A) R.CiphertextMessage
  encrypt_message remote_address plaintext now rng s =
      with_handles (s.session_store ∷ s.identity_store ∷ [])
        (Ops.encrypt_message R remote_address plaintext now rng) s

  unfoldable pub decrypt_message :
      ProtocolAddress → R.CiphertextMessage → R.Rng → Exec (SqliteStorage A) (List ℕ)
  decrypt_message remote_address ciphertext rng s =
      with_handles
        (s.session_store ∷ s.identity_store ∷ s.pre_key_store ∷ s.signed_pre_key_store
          ∷ s.kyber_pre_key_store ∷ [])
        (Ops.decrypt_message R remote_address ciphertext rng) s
