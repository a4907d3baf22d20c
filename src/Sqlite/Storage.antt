-- ===== src/Sqlite/Storage.antt =====
-- `SqliteStorage` of sqlite_storage.rs: the tables behind the one connection, the handles on the
-- stores that share it, the schema, and the tables `settings` and `bundle_metadata`. Its key stores
-- and its history are in the modules beside; libsignal's types are parameters.
use radix_relay.Prelude.{
  ℕ, Bool, true, false, Option, none, some, List, [], ◌∷◌, ◌++◌, map, ltb, if◌then◌else◌,
}
use radix_relay.Prelude.Decimal.{decimal, parse_u64}
use radix_relay.Exec.{
  Exec, Outcome, ok, err, panic, database, serialization, invalid_signed_pre_key_id,
  invalid_kyber_pre_key_id,
}
use radix_relay.Database.{Database}
use radix_relay.StorageTrait.{
  TimedKeyStore, StorageContainer, Storage, on_pre_keys, on_signed_pre_keys, on_kyber_pre_keys,
}
use radix_relay.Sqlite.{Codec}
use radix_relay.Sqlite.Sessions.{SqliteSessionStore}
use radix_relay.Sqlite.Identities.{SqliteIdentityStore, IdentityKeyApi}
use radix_relay.Sqlite.PreKeys.{sqlite_pre_keys}
use radix_relay.Sqlite.TimedKeys.{TimedRecordApi, sqlite_timed_keys}

pub record SqliteApi : Type 1 where
  pub SessionRecord : Type 0
  pub session_codec : Codec SessionRecord
  pub identity_api : IdentityKeyApi
  pub PreKeyRecord : Type 0
  pub pre_key_codec : Codec PreKeyRecord
  pub signed_api : TimedRecordApi
  pub kyber_api : TimedRecordApi

-- The row `id = 1` of `bundle_metadata`.
pub record BundleRow : Type 0 where
  pub pre_key_id : ℕ
  pub signed_pre_key_id : ℕ
  pub kyber_pre_key_id : ℕ
  pub published_at : ℕ

module _ (A : SqliteApi) where
  abbrev pub sqlite_signed_pre_keys : TimedKeyStore
  sqlite_signed_pre_keys = sqlite_timed_keys A.signed_api invalid_signed_pre_key_id

  abbrev pub sqlite_kyber_pre_keys : TimedKeyStore
  sqlite_kyber_pre_keys = sqlite_timed_keys A.kyber_api invalid_kyber_pre_key_id

  abbrev pub SqliteContainer : StorageContainer
  SqliteContainer = record {
    Sessions = SqliteSessionStore;
    Identities = SqliteIdentityStore;
    pre_keys = sqlite_pre_keys A.PreKeyRecord A.pre_key_codec;
    signed_pre_keys = sqlite_signed_pre_keys;
    kyber_pre_keys = sqlite_kyber_pre_keys;
  }

-- What the database file holds; a table that is none has not been created. The tables of the stores
-- and of the history are reached only after `initialize_schema` has created them, and are empty
-- before. `last_message_timestamp` is the value of the one key of `settings`, if it has a row.
pub record Tables (A : SqliteApi) : Type 0 where
  pub schema_info : Option (List ℕ)
  pub settings : Option (Option (List ℕ))
  pub bundle_metadata : Option (Option BundleRow)
  pub stores : Storage (SqliteContainer A)
  pub history : Database

-- A store's handle: a clone of the connection.
pub data Handle : Type 0 where
  shared_connection : Handle

pub record SqliteStorage (A : SqliteApi) : Type 0 where
  pub connection : Tables A
  pub session_store : Option Handle
  pub identity_store : Option Handle
  pub pre_key_store : Option Handle
  pub signed_pre_key_store : Option Handle
  pub kyber_pre_key_store : Option Handle
  pub message_history : Option Handle
  pub is_closed : Bool

abbrev pub first_version : Option (List ℕ) → Outcome ℕ
first_version none = err database
first_version (some []) = err database
first_version (some (version ∷ rest)) = ok version

abbrev pub rows_or_created {ℓ} : {B : Type ℓ} → B → Option B → Option B
rows_or_created empty none = some empty
rows_or_created empty (some rows) = some rows

-- `INSERT OR IGNORE INTO schema_info (version) VALUES (1)`: the table has no key that a row could
-- break, so the row is inserted.
abbrev pub with_version_row : Option (List ℕ) → List ℕ
with_version_row none = 1 ∷ []
with_version_row (some rows) = rows ++ (1 ∷ [])

-- Of `migrate_to_v2`, `UPDATE schema_info SET version = 2`.
unfoldable pub migrate_to_v2 : List ℕ → List ℕ
migrate_to_v2 versions = map (λ v. 2) versions

abbrev pub migrated : List ℕ → List ℕ
unfolding migrate_to_v2
migrated [] = []
migrated (v ∷ vs) = if ltb v 2 then migrate_to_v2 (v ∷ vs) else v ∷ vs

-- A setting, as text.
abbrev pub timestamp_of : Option (Option (List ℕ)) → Outcome ℕ
timestamp_of none = err database
timestamp_of (some none) = ok 0
timestamp_of (some (some value)) = elim (parse_u64 value) [
  | some timestamp ↦ ok timestamp
  | none ↦ err serialization
]

abbrev pub written : {B : Type 0} → B → Exec (Option (Option B)) Unit
written b none = (err database, none)
written b (some _) = (ok tt, some (some b))

abbrev pub metadata_of : Option (Option BundleRow) → Outcome (Option (ℕ × ℕ × ℕ))
metadata_of none = err database
metadata_of (some none) = ok none
metadata_of (some (some row)) =
    ok (some (row.pre_key_id, row.signed_pre_key_id, row.kyber_pre_key_id))

module _ {A : SqliteApi} where
  -- `new`, on the tables that the file has when it is opened with its key.
  abbrev pub new : Tables A → SqliteStorage A
  new tables = record {
    connection = tables;
    session_store = none;
    identity_store = none;
    pre_key_store = none;
    signed_pre_key_store = none;
    kyber_pre_key_store = none;
    message_history = none;
    is_closed = false;
  }

  unfoldable pub initialize_schema : Exec (SqliteStorage A) Unit
  initialize_schema s = (
    ok tt,
    record s {
      connection = record s.connection {
        schema_info = some (migrated (with_version_row s.connection.schema_info));
        settings = rows_or_created none s.connection.settings;
        bundle_metadata = rows_or_created none s.connection.bundle_metadata;
      };
      session_store = some shared_connection;
      identity_store = some shared_connection;
      pre_key_store = some shared_connection;
      signed_pre_key_store = some shared_connection;
      kyber_pre_key_store = some shared_connection;
      message_history = some shared_connection;
    },
  )

  unfoldable pub get_schema_version : SqliteStorage A → Outcome ℕ
  get_schema_version s = first_version s.connection.schema_info

  unfoldable pub get_last_message_timestamp : SqliteStorage A → Outcome ℕ
  get_last_message_timestamp s = timestamp_of s.connection.settings

  unfoldable pub set_last_message_timestamp : ℕ → Exec (SqliteStorage A) Unit
  set_last_message_timestamp timestamp s =
      let (r, t) = written (decimal timestamp) s.connection.settings in
      (r, record s { connection = record s.connection { settings = t } })

  -- `now` is the clock in seconds.
  unfoldable pub record_published_bundle : ℕ → ℕ → ℕ → ℕ → Exec (SqliteStorage A) Unit
  record_published_bundle now pre_key_id signed_pre_key_id kyber_pre_key_id s =
      let (r, t) =
        written
          (record {
            pre_key_id = pre_key_id;
            signed_pre_key_id = signed_pre_key_id;
            kyber_pre_key_id = kyber_pre_key_id;
            published_at = now;
          })
          s.connection.bundle_metadata in
      (r, record s { connection = record s.connection { bundle_metadata = t } })

  unfoldable pub get_last_published_bundle_metadata : SqliteStorage A → Outcome (Option (ℕ × ℕ × ℕ))
  get_last_published_bundle_metadata s = metadata_of s.connection.bundle_metadata

  abbrev pub close_unless : Bool → Exec (SqliteStorage A) Unit
  close_unless true s = (ok tt, s)
  close_unless false s = (
    ok tt,
    record s {
      session_store = none;
      identity_store = none;
      pre_key_store = none;
      signed_pre_key_store = none;
      kyber_pre_key_store = none;
      is_closed = true;
    },
  )

  unfoldable pub close : Exec (SqliteStorage A) Unit
  close s = close_unless s.is_closed s

  -- The accessors: a store's methods run on the tables, unless the storage is closed or the store
  -- has no handle.
  module _ {B : Type 0} where
    abbrev pub through :
        Bool → Option Handle → Exec (Storage (SqliteContainer A)) B → Exec (SqliteStorage A) B
    through true handle m s = (panic, s)
    through false none m s = (panic, s)
    through false (some _) m s =
        let (r, t) = m s.connection.stores in
        (r, record s { connection = record s.connection { stores = t } })

    unfoldable pub on_session_store : Exec SqliteSessionStore B → Exec (SqliteStorage A) B
    on_session_store m s =
        through s.is_closed s.session_store
          (λ t. let (r, u) = m t.session_store in (r, record t { session_store = u })) s

    unfoldable pub on_identity_store : Exec SqliteIdentityStore B → Exec (SqliteStorage A) B
    on_identity_store m s =
        through s.is_closed s.identity_store
          (λ t. let (r, u) = m t.identity_store in (r, record t { identity_store = u })) s

    unfoldable pub on_pre_key_store :
        Exec (SqliteContainer A).pre_keys.Store B → Exec (SqliteStorage A) B
    on_pre_key_store m s = through s.is_closed s.pre_key_store (on_pre_keys m) s

    unfoldable pub on_signed_pre_key_store :
        Exec (SqliteContainer A).signed_pre_keys.Store B → Exec (SqliteStorage A) B
    on_signed_pre_key_store m s =
        through s.is_closed s.signed_pre_key_store (on_signed_pre_keys m) s

    unfoldable pub on_kyber_pre_key_store :
        Exec (SqliteContainer A).kyber_pre_keys.Store B → Exec (SqliteStorage A) B
    on_kyber_pre_key_store m s = through s.is_closed s.kyber_pre_key_store (on_kyber_pre_keys m) s

    abbrev pub through_history : Option Handle → Exec Database B → Exec (SqliteStorage A) B
    through_history none m s = (panic, s)
    through_history (some _) m s =
        let (r, t) = m s.connection.history in
        (r, record s { connection = record s.connection { history = t } })

    -- `message_history()` does not ask whether the storage is closed.
    unfoldable pub on_message_history : Exec Database B → Exec (SqliteStorage A) B
    on_message_history m s = through_history s.message_history m s
