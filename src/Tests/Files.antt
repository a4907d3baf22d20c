-- ===== src/Tests/Files.antt =====
-- The life of an SQLite storage on a new file, and the key of its database.
use radix_relay.Prelude.{
  if◌then◌else◌, ℕ, zero, suc, ◌≡◌, refl, ◌==◌, true, none, some, List, [], ◌∷◌, length, arith,
}
use radix_relay.Prelude.Assoc.{lookup}
use radix_relay.Prelude.Decimal.{codes_eq}
use radix_relay.Exec.{Exec, ok, panic}
use radix_relay.StorageTrait.{Storage}
use radix_relay.Sqlite.Sessions.{SqliteSessionStore, store_session}
use radix_relay.Sqlite.Identities.{SqliteIdentityStore}
use radix_relay.Sqlite.TimedKeys.{TimedRecordApi}
use radix_relay.Sqlite.Storage.{
  SqliteApi, SqliteContainer, Tables, SqliteStorage, new, initialize_schema, get_schema_version,
  get_last_message_timestamp, set_last_message_timestamp, record_published_bundle,
  get_last_published_bundle_metadata, close, on_session_store, on_identity_store, on_pre_key_store,
  on_signed_pre_key_store, on_kyber_pre_key_store,
}
use radix_relay.StorageTrait.Ops as Ops
use radix_relay.StorageTrait.Ops.{RatchetApi}
use radix_relay.Memory.Address.{ProtocolAddress}
use radix_relay.Sqlite.Ops.{establish_session_from_bundle, encrypt_message, decrypt_message}
use radix_relay.Sqlite.Steps.{started_then, sessions_used, here, there}
use radix_relay.Sqlite.Lifecycle.{Reach-IsClosedWith}
use radix_relay.Sqlite.Starts.{started, started-version, settings_roundtrip}
use radix_relay.DbEncryption.{System, get_key_file_path, get_or_create_db_key}
use radix_relay.DbEncryption.Kept.{get_or_create_db_key-kept}
use radix_relay.Tests.Backends.{pair_codec, number_codec, identity_api}

abbrev pub timed_api : TimedRecordApi
timed_api = record {
  KeyRecord = ℕ × ℕ;
  codec = pair_codec;
  timestamp = λ r. some r.1;
  signature = λ r. some [];
}

abbrev pub sqlite_api : SqliteApi
sqlite_api = record {
  SessionRecord = ℕ;
  session_codec = number_codec;
  identity_api = identity_api;
  PreKeyRecord = ℕ × ℕ;
  pre_key_codec = pair_codec;
  signed_api = timed_api;
  kyber_api = timed_api;
}

abbrev pub no_stores : Storage (SqliteContainer sqlite_api)
no_stores = record {
  session_store = record { sessions = [] };
  identity_store = record { local_identity = none; identity_keys = [] };
  pre_key_store = record { pre_keys = [] };
  signed_pre_key_store = record { keys = [] };
  kyber_pre_key_store = record { keys = [] };
}

abbrev pub new_file : Tables sqlite_api
new_file = record {
  schema_info = none;
  settings = none;
  bundle_metadata = none;
  stores = no_stores;
  history = record {
    contacts = [];
    conversations = [];
    messages = [];
    conversation_seq = 0;
    message_seq = 0;
    foreign_keys = true;
  };
}

abbrev pub running : SqliteStorage sqlite_api
unfolding initialize_schema
running = (initialize_schema (new new_file)).1

abbrev stopped : SqliteStorage sqlite_api
unfolding close
stopped = (close running).1

abbrev phone_session : Exec SqliteSessionStore Unit
unfolding store_session
phone_session = store_session number_codec (record { name = b'a' ∷ []; device_id = 1 }) 4

-- A ratchet that puts one in front of the text and leaves one session.
abbrev ratchet : RatchetApi (SqliteContainer sqlite_api)
ratchet = record {
  Rng = ℕ;
  PreKeyBundle = ℕ;
  CiphertextMessage = List ℕ;
  process_prekey_bundle = λ a bundle now rng t. (ok tt, t);
  message_encrypt =
      λ text a now rng t. (ok (1 ∷ text), (record { sessions = (a, 4 ∷ []) ∷ [] }, t.1));
  message_decrypt = λ m a signed rng t. (ok m, t);
}

abbrev phone : ProtocolAddress
phone = record { name = b'a' ∷ []; device_id = 1 }

-- A start after the end.
abbrev afterwards : SqliteStorage sqlite_api
unfolding initialize_schema
afterwards = (initialize_schema stopped).1

Reach-IsClosedWith_example :
    let w = (initialize_schema afterwards).1 in
    (afterwards.is_closed ≡ true)
    × ((B : Type 0) (m : Exec SqliteSessionStore B) → (on_session_store m afterwards).0 ≡ panic)
    × ((B : Type 0) (m : Exec SqliteIdentityStore B) → (on_identity_store m afterwards).0 ≡ panic)
    × ((B : Type 0) (m : Exec (SqliteContainer sqlite_api).pre_keys.Store B)
        → (on_pre_key_store m afterwards).0 ≡ panic)
    × ((B : Type 0) (m : Exec (SqliteContainer sqlite_api).signed_pre_keys.Store B)
        → (on_signed_pre_key_store m afterwards).0 ≡ panic)
    × ((B : Type 0) (m : Exec (SqliteContainer sqlite_api).kyber_pre_keys.Store B)
        → (on_kyber_pre_key_store m afterwards).0 ≡ panic)
    × (stopped.connection.stores ≡ running.connection.stores)
    × (establish_session_from_bundle ratchet phone 5 30 0 stopped ≡ (panic, stopped))
    × (encrypt_message ratchet phone (7 ∷ []) 30 0 stopped ≡ (panic, stopped))
    × (decrypt_message ratchet phone (8 ∷ []) 0 stopped ≡ (panic, stopped))
    × (w.is_closed ≡ true)
    × ((encrypt_message ratchet phone (7 ∷ []) 30 0 w).0
        ≡ (Ops.encrypt_message ratchet phone (7 ∷ []) 30 0 afterwards.connection.stores).0)
    × ((encrypt_message ratchet phone (7 ∷ []) 30 0 w).1.connection.stores
        ≡ (Ops.encrypt_message ratchet phone (7 ∷ []) 30 0 afterwards.connection.stores).1)
unfolding close initialize_schema afterwards on_session_store
Reach-IsClosedWith_example =
    Reach-IsClosedWith running afterwards stopped ratchet phone 5 (7 ∷ []) (8 ∷ []) 30 0 refl
      (started_then stopped (here afterwards))
      (there (sessions_used phone_session stopped) (here stopped))

started-version_example :
    let u = started 3 new_file in
    (get_schema_version (new u) ≡ ok 2)
    × ((rows : List ℕ) × (u.schema_info ≡ some rows) × (length rows ≡ 3))
    × (u.stores ≡ new_file.stores)
    × (u.history ≡ new_file.history)
started-version_example = started-version 2 new_file refl

settings_roundtrip_example :
    let u = (initialize_schema running).1 in
    let v = (record_published_bundle 50 3 1 2 (set_last_message_timestamp 1700000000 u).1).1 in
    let w = (initialize_schema (new v.connection)).1 in
    (get_last_message_timestamp v ≡ ok 1700000000)
    × (get_last_published_bundle_metadata v ≡ ok (some (3, 1, 2)))
    × (get_last_message_timestamp w ≡ ok 1700000000)
    × (get_last_published_bundle_metadata w ≡ ok (some (3, 1, 2)))
    × (get_last_published_bundle_metadata (set_last_message_timestamp 1700000000 u).1
        ≡ get_last_published_bundle_metadata u)
    × (get_last_message_timestamp (record_published_bundle 50 3 1 2 u).1
        ≡ get_last_message_timestamp u)
settings_roundtrip_example = settings_roundtrip running 1700000000 50 3 1 2 (omega arith)

abbrev pub permissive : System
permissive = record {
  may_create_dir = λ p. true;
  may_create = λ p. true;
  may_set_permissions = λ p. true;
  may_write = λ p. true;
  may_open = λ p. true;
}

abbrev pub fill : ℕ → ℕ → List ℕ
fill g zero = []
fill g (suc n) = g ∷ fill g n

-- `node.db`
abbrev pub db_path : List ℕ
db_path = b'n' ∷ b'.' ∷ b'd' ∷ b'b' ∷ []

get_or_create_db_key-kept_example :
    let after = (get_or_create_db_key permissive fill 7 db_path []).1 in
    (get_or_create_db_key permissive fill 8 db_path after ≡ (ok (fill 7 32), after))
    × (length (fill 7 32) ≡ 32)
    × ((other : List ℕ)
        → let path = get_key_file_path db_path in
          lookup other after ≡ (if path == other then lookup path after else lookup other []))
unfolding get_or_create_db_key lookup
get_or_create_db_key-kept_example =
    get_or_create_db_key-kept permissive fill 7 8 db_path [] (fill 7 32) (λ g. refl) refl refl refl
