-- ===== src/Bridge/Opening.antt =====
-- The start and the end of a bridge: `SignalBridge::new` and its `Drop` in
-- rust/signal_bridge/src/lib.rs, over the SQLite storage, the key file of the database and the
-- database file. SQLCipher, which encrypts that file, is a parameter.
use radix_relay.Prelude.{ℕ, Bool, true, false, Option, none, some, List, ltb, if◌then◌else◌}
use radix_relay.Exec.{
  Exec, Outcome, ok, err, panic, storage, schema_version_too_old, pure, raise, reads, ◌>>=◌, ◌>>◌,
}
use radix_relay.DbEncryption.{Files, System, get_or_create_db_key}
use radix_relay.NostrIdentity.{map_outcome}
use radix_relay.StorageTrait.{Storage}
use radix_relay.Keys.{KeyApi}
use radix_relay.Sqlite.Storage.{
  SqliteApi, SqliteContainer, Tables, SqliteStorage, Handle, initialize_schema, get_schema_version,
  close, through,
}
use radix_relay.Sqlite.Storage as Sqlite
use radix_relay.Bridge.{IdentityStore, ensure_keys_exist}
use radix_relay.Bridge.Messages.{SignalBridge}
use radix_relay.Bridge.Peering.{or_storage}

-- A database file, what a connection with a key reads of it, and the file that a connection with a
-- key leaves. Reading fails, at the first statement, where the key is not that of the file.
pub record FileCipher (A : SqliteApi) : Type 1 where
  pub DbFile : Type 0
  pub read : DbFile → List ℕ → Option (Tables A)
  pub write : List ℕ → Tables A → DbFile

pub record Disk (DbFile : Type 0) : Type 0 where
  pub key_files : Files
  pub database : DbFile

abbrev pub or_storage_error {ℓ} : {B : Type ℓ} → Option B → Outcome B
or_storage_error none = err storage
or_storage_error (some b) = ok b

abbrev pub on_key_files : {DbFile B : Type 0} → Exec Files B → Exec (Disk DbFile) B
on_key_files m d = let (r, f) = m d.key_files in (or_storage r, record d { key_files = f })

module _ {A : SqliteApi} where
  -- The calls of `ensure_keys_exist` go through the handles of the storage.
  abbrev pub on_stores :
      {B : Type 0} → Exec (Storage (SqliteContainer A)) B → Exec (SqliteStorage A) B
  on_stores m s = through s.is_closed s.identity_store m s

  abbrev pub new_enough : ℕ → Exec (SqliteStorage A) Unit
  new_enough schema_version = if ltb schema_version 1 then raise schema_version_too_old else pure tt

  module _ (overflow_checks : Bool) (K : KeyApi (SqliteContainer A))
      (I : IdentityStore (SqliteContainer A) K) where
    unfoldable pub start_storage : (ℕ → K.Rng) → ℕ → Exec (SqliteStorage A) Unit
    unfolding initialize_schema get_schema_version
    start_storage rng now = do
      initialize_schema
      schema_version ← reads (λ s. or_storage (get_schema_version s))
      new_enough schema_version
      on_stores (ensure_keys_exist overflow_checks K I rng now)
      pure tt

    module _ (system : System) {Rng : Type 0} (fill_bytes : Rng → ℕ → List ℕ)
        (F : FileCipher A) where
      abbrev pub start_on :
          List ℕ → (ℕ → K.Rng) → ℕ → Tables A → Exec (Disk F.DbFile) (SqliteStorage A)
      start_on key rng now tables d =
          let (r, s) = start_storage rng now (Sqlite.new tables) in
          (map_outcome (λ _. s) r, record d { database = F.write key s.connection })

      -- `create_dir_all` of the directory above the file, then the key, the connection and the
      -- start.
      unfoldable pub new : Rng → (ℕ → K.Rng) → ℕ → List ℕ → Exec (Disk F.DbFile) (SqliteStorage A)
      unfolding start_storage
      new key_rng rng now db_path = do
        if system.may_create_dir db_path then pure tt else raise storage
        key ← on_key_files (get_or_create_db_key system fill_bytes key_rng db_path)
        tables ← reads (λ d. or_storage_error (F.read d.database key))
        start_on key rng now tables

  -- `Drop`: a storage that is not closed yet is.
  unfoldable pub drop : Exec (SqliteStorage A) Unit
  unfolding close
  drop s = if s.is_closed then (ok tt, s) else close s

  -- A method of the bridge on the storage and the tables behind its connection. The storage is not
  -- closed before the bridge is dropped.
  abbrev pub bridged :
      {B : Type 0}
      → Bool
      → Option Handle
      → Exec (SignalBridge (SqliteContainer A)) B
      → Exec (SqliteStorage A) B
  bridged true handle m s = (panic, s)
  bridged false none m s = (panic, s)
  bridged false (some _) m s =
      let (r, b) = m (record { storage = s.connection.stores; database = s.connection.history }) in
      (
        r,
        record s { connection = record s.connection { stores = b.storage; history = b.database } },
      )

  unfoldable pub on_bridge :
      {B : Type 0} → Exec (SignalBridge (SqliteContainer A)) B → Exec (SqliteStorage A) B
  on_bridge m s = bridged s.is_closed s.session_store m s
