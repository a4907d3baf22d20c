-- ===== src/Memory/TimedKeys.antt =====
-- `MemorySignedPreKeyStore` and `MemoryKyberPreKeyStore` of memory_storage.rs. The two have the
-- same code over their record type and the error for a missing id, which are parameters here;
-- `timestamp` is the record's accessor.
use radix_relay.Prelude.{
  ℕ, Bool, false, Option, none, some, List, [], ◌∷◌, length, ltb, if◌then◌else◌, nat_eq,
}
use radix_relay.Prelude.Assoc.{Assoc, lookup, insert, erase}
use radix_relay.Prelude.MaxKey.{max_key}
use radix_relay.Exec.{Exec, Outcome, Error, ok, err, panic}
use radix_relay.StorageTrait.{TimedKeyStore}

pub record MemoryTimedKeyStore (KeyRecord : Type 0) : Type 0 where
  pub keys : Assoc ℕ KeyRecord

-- `if let Ok(ts) = record.timestamp()` and the test.
abbrev pub is_older : ℕ → Outcome ℕ → Bool
is_older t (ok ts) = ltb ts t
is_older t (err _) = false
is_older t panic = false

module _ {KeyRecord : Type 0} where
  pub new : MemoryTimedKeyStore KeyRecord
  new = record { keys = [] }

  unfoldable pub get_key : Error → MemoryTimedKeyStore KeyRecord → ℕ → Outcome KeyRecord
  get_key missing s id = elim (lookup id s.keys) [ some k ↦ ok k | none ↦ err missing ]

  unfoldable pub save_key : ℕ → KeyRecord → Exec (MemoryTimedKeyStore KeyRecord) Unit
  save_key id k s = (ok tt, record { keys = insert id k s.keys })

  unfoldable pub key_count : MemoryTimedKeyStore KeyRecord → ℕ
  key_count s = length s.keys

  unfoldable pub clear_all_keys : Exec (MemoryTimedKeyStore KeyRecord) Unit
  clear_all_keys s = (ok tt, record { keys = [] })

  unfoldable pub get_max_key_id : MemoryTimedKeyStore KeyRecord → Outcome (Option ℕ)
  get_max_key_id s = ok (max_key s.keys)

  unfoldable pub delete_key : ℕ → Exec (MemoryTimedKeyStore KeyRecord) Unit
  delete_key id s = (ok tt, record { keys = erase id s.keys })

  -- The loop over the entries.
  unfoldable pub expired_entries : (KeyRecord → Outcome ℕ) → ℕ → Assoc ℕ KeyRecord → List ℕ
  expired_entries timestamp t [] = []
  expired_entries timestamp t ((id, k) ∷ entries) =
      let rest = expired_entries timestamp t entries in
      if is_older t (timestamp k) then id ∷ rest else rest

  unfoldable pub get_keys_older_than :
      (KeyRecord → Outcome ℕ) → MemoryTimedKeyStore KeyRecord → ℕ → Outcome (List ℕ)
  get_keys_older_than timestamp s timestamp_millis =
      ok (expired_entries timestamp timestamp_millis s.keys)

  -- `mark_kyber_pre_key_used`: the memory store does not track usage.
  unfoldable pub mark_kyber_pre_key_used : ℕ → Exec (MemoryTimedKeyStore KeyRecord) Unit
  mark_kyber_pre_key_used id s = (ok tt, s)

abbrev pub memory_timed_keys :
    (KeyRecord : Type 0) → (KeyRecord → Outcome ℕ) → Error → TimedKeyStore
memory_timed_keys KeyRecord timestamp missing = record {
  keys = record {
    Store = MemoryTimedKeyStore KeyRecord;
    KeyRecord = KeyRecord;
    get = get_key missing;
    save = save_key;
    delete = delete_key;
    clear_all = clear_all_keys;
    count = key_count;
    max_id = get_max_key_id;
  };
  timestamp = timestamp;
  older_than = get_keys_older_than timestamp;
}
