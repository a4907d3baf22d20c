-- ===== src/Memory/Container.antt =====
-- `MemoryStorage` of memory_storage.rs: the five stores in memory as one container. libsignal's
-- record types are parameters; a timestamp is in milliseconds.
use radix_relay.Prelude.{ℕ, none, [], String}
use radix_relay.Exec.{Exec, Outcome, ok, invalid_signed_pre_key_id, invalid_kyber_pre_key_id}
use radix_relay.StorageTrait.{TimedKeyStore, StorageContainer, StorageContainerLaws, Storage}
use radix_relay.Memory.Sessions.{MemorySessionStore}
use radix_relay.Memory.Identities.{MemoryIdentityStore}
use radix_relay.Memory.PreKeys.{PreKeyApi, memory_pre_keys}
use radix_relay.Memory.PreKeyLaws.{memory_pre_key_laws}
use radix_relay.Memory.TimedKeys.{memory_timed_keys}
use radix_relay.Memory.TimedLaws.{memory_timed_laws}

pub record RecordApi : Type 1 where
  pub SessionRecord : Type 0
  pub IdentityKey : Type 0
  pub IdentityKeyPair : Type 0
  pub pre_key_api : PreKeyApi
  pub SignedPreKeyRecord : Type 0
  pub KyberPreKeyRecord : Type 0
  pub signed_timestamp : SignedPreKeyRecord → Outcome ℕ
  pub kyber_timestamp : KyberPreKeyRecord → Outcome ℕ

module _ (R : RecordApi) where
  abbrev pub memory_signed_pre_keys : TimedKeyStore
  memory_signed_pre_keys =
      memory_timed_keys R.SignedPreKeyRecord R.signed_timestamp invalid_signed_pre_key_id

  abbrev pub memory_kyber_pre_keys : TimedKeyStore
  memory_kyber_pre_keys =
      memory_timed_keys R.KyberPreKeyRecord R.kyber_timestamp invalid_kyber_pre_key_id

  abbrev pub MemoryContainer : StorageContainer
  MemoryContainer = record {
    Sessions = MemorySessionStore R.SessionRecord;
    Identities = MemoryIdentityStore R.IdentityKey R.IdentityKeyPair;
    pre_keys = memory_pre_keys R.pre_key_api;
    signed_pre_keys = memory_signed_pre_keys;
    kyber_pre_keys = memory_kyber_pre_keys;
  }

  abbrev pub memory_container_laws : StorageContainerLaws MemoryContainer
  memory_container_laws = record {
    pre_key_laws = memory_pre_key_laws R.pre_key_api;
    signed_pre_key_laws =
        memory_timed_laws R.SignedPreKeyRecord R.signed_timestamp invalid_signed_pre_key_id;
    kyber_pre_key_laws =
        memory_timed_laws R.KyberPreKeyRecord R.kyber_timestamp invalid_kyber_pre_key_id;
  }

  abbrev pub MemoryStorage : Type 0
  MemoryStorage = Storage MemoryContainer

  abbrev pub new : MemoryStorage
  new = record {
    session_store = record { sessions = [] };
    identity_store = record {
      identity_keys = [];
      local_identity_key_pair = none;
      local_registration_id = none;
    };
    pre_key_store = record { pre_keys = [] };
    signed_pre_key_store = record { keys = [] };
    kyber_pre_key_store = record { keys = [] };
  }

  unfoldable pub initialize : Exec MemoryStorage Unit
  initialize s = (ok tt, s)

  unfoldable pub close : Exec MemoryStorage Unit
  close s = (ok tt, s)

  abbrev pub storage_type : MemoryStorage → String
  storage_type s = "memory"
