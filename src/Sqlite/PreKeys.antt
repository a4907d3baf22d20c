-- ===== src/Sqlite/PreKeys.antt =====
-- `SqlitePreKeyStore` of sqlite_storage.rs, over the table `pre_keys`: the column `key_data` by id.
use radix_relay.Prelude.{ℕ, Option, none, some, List, [], length, nat_eq}
use radix_relay.Prelude.Assoc.{Assoc, lookup, insert, erase}
use radix_relay.Prelude.MaxKey.{max_key}
use radix_relay.Exec.{Exec, Outcome, ok, err, invalid_pre_key_id, lift, ◌>>=◌}
use radix_relay.StorageTrait.{KeyStore}
use radix_relay.Sqlite.{Codec, or_invalid_state}

pub record SqlitePreKeyStore : Type 0 where
  pub pre_keys : Assoc ℕ (List ℕ)

module _ {PreKeyRecord : Type 0} (codec : Codec PreKeyRecord) where
  unfoldable pub get_pre_key : SqlitePreKeyStore → ℕ → Outcome PreKeyRecord
  get_pre_key s prekey_id = elim (lookup prekey_id s.pre_keys) [
    | some key_data ↦ or_invalid_state (codec.deserialize key_data)
    | none ↦ err invalid_pre_key_id
  ]

  unfoldable pub save_pre_key : ℕ → PreKeyRecord → Exec SqlitePreKeyStore Unit
  save_pre_key prekey_id r = do
    serialized ← lift (or_invalid_state (codec.serialize r))
    λ s. (ok tt, record { pre_keys = insert prekey_id serialized s.pre_keys })

unfoldable pub remove_pre_key : ℕ → Exec SqlitePreKeyStore Unit
remove_pre_key prekey_id s = (ok tt, record { pre_keys = erase prekey_id s.pre_keys })

unfoldable pub pre_key_count : SqlitePreKeyStore → ℕ
pre_key_count s = length s.pre_keys

unfoldable pub clear_all_pre_keys : Exec SqlitePreKeyStore Unit
clear_all_pre_keys s = (ok tt, record { pre_keys = [] })

-- `MAX(id)` of no rows is NULL, which is no `u32`, and `.ok()` makes that none.
unfoldable pub get_max_pre_key_id : SqlitePreKeyStore → Outcome (Option ℕ)
get_max_pre_key_id s = ok (max_key s.pre_keys)

unfoldable pub delete_pre_key : ℕ → Exec SqlitePreKeyStore Unit
delete_pre_key id s = (ok tt, record { pre_keys = erase id s.pre_keys })

abbrev pub sqlite_pre_keys : (PreKeyRecord : Type 0) → Codec PreKeyRecord → KeyStore
sqlite_pre_keys PreKeyRecord codec = record {
  Store = SqlitePreKeyStore;
  KeyRecord = PreKeyRecord;
  get = get_pre_key codec;
  save = save_pre_key codec;
  delete = delete_pre_key;
  clear_all = clear_all_pre_keys;
  count = pre_key_count;
  max_id = get_max_pre_key_id;
}
