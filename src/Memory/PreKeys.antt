-- ===== src/Memory/PreKeys.antt =====
-- `MemoryPreKeyStore` of memory_storage.rs: the map holds key pairs, and a record is made again
-- from the pair and the id when it is read.
use radix_relay.Prelude.{ℕ, Option, none, some, [], length, nat_eq}
use radix_relay.Prelude.Assoc.{Assoc, lookup, insert, erase}
use radix_relay.Prelude.MaxKey.{max_key}
use radix_relay.Exec.{Exec, Outcome, ok, err, invalid_pre_key_id, lift, ◌>>=◌}
use radix_relay.StorageTrait.{KeyStore}

-- libsignal's `PreKeyRecord`: `PreKeyRecord::new(id, pair)` and `record.key_pair()`.
pub record PreKeyApi : Type 1 where
  pub PreKeyRecord : Type 0
  pub KeyPair : Type 0
  pub new_record : ℕ → KeyPair → PreKeyRecord
  pub key_pair : PreKeyRecord → Outcome KeyPair

pub record MemoryPreKeyStore (P : PreKeyApi) : Type 0 where
  pub pre_keys : Assoc ℕ P.KeyPair

module _ {P : PreKeyApi} where
  pub new : MemoryPreKeyStore P
  new = record { pre_keys = [] }

  unfoldable pub get_pre_key : MemoryPreKeyStore P → ℕ → Outcome P.PreKeyRecord
  get_pre_key s prekey_id = elim (lookup prekey_id s.pre_keys) [
    | some key_pair ↦ ok (P.new_record prekey_id key_pair)
    | none ↦ err invalid_pre_key_id
  ]

  unfoldable pub save_pre_key : ℕ → P.PreKeyRecord → Exec (MemoryPreKeyStore P) Unit
  save_pre_key prekey_id pre_key = do
    key_pair ← lift (P.key_pair pre_key)
    λ s. (ok tt, record { pre_keys = insert prekey_id key_pair s.pre_keys })

  unfoldable pub remove_pre_key : ℕ → Exec (MemoryPreKeyStore P) Unit
  remove_pre_key prekey_id s = (ok tt, record { pre_keys = erase prekey_id s.pre_keys })

  unfoldable pub pre_key_count : MemoryPreKeyStore P → ℕ
  pre_key_count s = length s.pre_keys

  unfoldable pub clear_all_pre_keys : Exec (MemoryPreKeyStore P) Unit
  clear_all_pre_keys s = (ok tt, record { pre_keys = [] })

  unfoldable pub get_max_pre_key_id : MemoryPreKeyStore P → Outcome (Option ℕ)
  get_max_pre_key_id s = ok (max_key s.pre_keys)

  unfoldable pub delete_pre_key : ℕ → Exec (MemoryPreKeyStore P) Unit
  delete_pre_key id s = (ok tt, record { pre_keys = erase id s.pre_keys })

abbrev pub memory_pre_keys : PreKeyApi → KeyStore
memory_pre_keys P = record {
  Store = MemoryPreKeyStore P;
  KeyRecord = P.PreKeyRecord;
  get = get_pre_key;
  save = save_pre_key;
  delete = delete_pre_key;
  clear_all = clear_all_pre_keys;
  count = pre_key_count;
  max_id = get_max_pre_key_id;
}
