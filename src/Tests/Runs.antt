-- ===== src/Tests/Runs.antt =====
-- Two runs of the bridge on a new file.
use radix_relay.Prelude.{
  ℕ, suc, ◌≡◌, refl, inr, true, Option, none, some, List, [], ◌∷◌, if◌then◌else◌, ◌==◌,
}
use radix_relay.Prelude.Assoc.{lookup}
use radix_relay.Prelude.Decimal.{codes_eq, list_eqb_iff}
use radix_relay.Exec.{ok}
use radix_relay.DbEncryption.{get_or_create_db_key}
use radix_relay.Keys.{generate_identity_key_pair}
use radix_relay.Sqlite.Identities.{
  get_identity_key_pair, set_local_identity_key_pair, set_local_registration_id,
}
use radix_relay.Sqlite.Laws.{sqlite_pre_key_table, sqlite_pre_key_laws}
use radix_relay.Sqlite.Storage.{Tables, SqliteStorage}
use radix_relay.Sqlite.Steps.{Ready}
use radix_relay.StorageTrait.Tables.{table_laws}
use radix_relay.Bridge.{ensure_identity}
use radix_relay.Bridge.Opening.{FileCipher, Disk, new, drop}
use radix_relay.Bridge.Reopening.{new-again}
use radix_relay.Tests.Files.{sqlite_api, new_file, permissive, fill, db_path}
use radix_relay.Tests.Reset.{
  key_api, container_laws, key_api_laws, identity_store, peer_ops, local_laws, no_stores-Valid,
}

-- A file is new, or holds its key beside its tables.
abbrev DbFile : Type 0
DbFile = Option (List ℕ × Tables sqlite_api)

abbrev read : DbFile → List ℕ → Option (Tables sqlite_api)
read none key = some new_file
read (some (k, t)) key = if k == key then some t else none

abbrev file_cipher : FileCipher sqlite_api
file_cipher = record { DbFile = DbFile; read = read; write = λ key t. some (key, t) }

read-write : (k : List ℕ) (t : Tables sqlite_api) → read (some (k, t)) k ≡ some t
read-write k t = rw ((list_eqb_iff k k).1 refl)

abbrev new_disk : Disk DbFile
new_disk = record { key_files = []; database = none }

-- What happens between the runs: a time is stored.
abbrev seen : Tables sqlite_api → Tables sqlite_api
seen t = record t { settings = some (some (b'9' ∷ [])) }

new-again_example :
    let (r, first) =
      new true key_api identity_store permissive fill file_cipher 7
        (λ n. n)
        2000000000
        db_path
        new_disk in
    (s : SqliteStorage sqlite_api) × (s' : SqliteStorage sqlite_api) × (r ≡ ok s)
    × Ready s
    × (identity_store.get_identity_key_pair s.connection.stores.identity_store ≡ ok 0)
    × let left = seen (drop s).1.connection in
      let d' = record first { database = file_cipher.write (fill 7 32) left } in
      ((new true key_api identity_store permissive fill file_cipher 8
          (λ n. suc n)
          2000000500
          db_path
          d').0
        ≡ ok s')
      × Ready s'
      × (s'.connection.stores ≡ s.connection.stores)
      × (s'.connection.history ≡ left.history)
unfolding sqlite_pre_key_laws sqlite_pre_key_table table_laws lookup ensure_identity
    get_identity_key_pair set_local_identity_key_pair set_local_registration_id
    generate_identity_key_pair get_or_create_db_key
new-again_example =
    new-again true container_laws key_api key_api_laws identity_store peer_ops local_laws permissive
      fill file_cipher 7 8 (λ n. n) (λ n. suc n) 2000000000 2000000500 db_path new_disk (fill 7 32)
      new_file 0 seen {g = 3} {h = 4} read-write (λ g. refl) (λ t. refl) refl refl refl refl refl
      refl no_stores-Valid.0 no_stores-Valid.1 no_stores-Valid.2 (inr (λ j. refl)) refl refl
