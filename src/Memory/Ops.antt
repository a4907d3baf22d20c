-- ===== src/Memory/Ops.antt =====
-- `ExtendedStorageOps` of `MemoryStorage` in memory_storage.rs: the methods of the trait, which call
-- the ones of the same names on the storage, with a generator and the clock in milliseconds.
use radix_relay.Prelude.{ℕ, List}
use radix_relay.Exec.{Exec}
use radix_relay.Memory.Address.{ProtocolAddress}
use radix_relay.Memory.Container.{RecordApi, MemoryContainer, MemoryStorage}
use radix_relay.StorageTrait.Ops as Ops
use radix_relay.StorageTrait.Ops.{RatchetApi}

module _ {A : RecordApi} (R : RatchetApi (MemoryContainer A)) where
  unfoldable pub establish_session_from_bundle :
      ProtocolAddress → R.PreKeyBundle → ℕ → R.Rng → Exec (MemoryStorage A) Unit
  establish_session_from_bundle = Ops.establish_session_from_bundle R

  unfoldable pub encrypt_message :
      ProtocolAddress → List ℕ → ℕ → R.Rng → Exec (MemoryStorage A) R.CiphertextMessage
  encrypt_message = Ops.encrypt_message R

  unfoldable pub decrypt_message :
      ProtocolAddress → R.CiphertextMessage → R.Rng → Exec (MemoryStorage A) (List ℕ)
  decrypt_message = Ops.decrypt_message R
