-- ===== src/Sqlite/TimedKeys.antt =====
-- `SqliteSignedPreKeyStore` and `SqliteKyberPreKeyStore` of sqlite_storage.rs. The two have the same
-- code over their table, their record type and the error for a missing id, which are parameters here.
use radix_relay.Prelude.{
  ℕ, ◌+◌, ◌*◌, ◌/◌, Bool, false, Option, none, some, List, [], ◌∷◌, length, ltb, if◌then◌else◌,
  ◌==◌, nat_eq,
}
use radix_relay.Prelude.Assoc.{Assoc, lookup, insert, erase}
use radix_relay.Prelude.MaxKey.{max_key}
use radix_relay.Exec.{Exec, Outcome, Error, ok, err, lift, ◌>>=◌}
use radix_relay.StorageTrait.{TimedKeyStore}
use radix_relay.Sqlite.{Codec, or_invalid_state}

-- A row of `signed_pre_keys` or of `kyber_pre_keys`. Times are in seconds.
pub record TimedKeyRow : Type 0 where
  pub key_data : List ℕ
  pub signature : List ℕ
  pub created_at : ℕ
  pub expires_at : ℕ
  pub is_current : Bool

pub record SqliteTimedKeyStore : Type 0 where
  pub keys : Assoc ℕ TimedKeyRow

-- libsignal's `SignedPreKeyRecord` or `KyberPreKeyRecord`; `timestamp` is in milliseconds.
pub record TimedRecordApi : Type 1 where
  pub KeyRecord : Type 0
  pub codec : Codec KeyRecord
  pub timestamp : KeyRecord → Option ℕ
  pub signature : KeyRecord → Option (List ℕ)

module _ (P : TimedRecordApi) where
  unfoldable pub get_key : Error → SqliteTimedKeyStore → ℕ → Outcome P.KeyRecord
  get_key missing s id = elim (lookup id s.keys) [
    | some row ↦ or_invalid_state (P.codec.deserialize row.key_data)
    | none ↦ err missing
  ]

  -- A timestamp of 64 bits divided by 1000 fits in an `i64`, with 30 days added too.
  unfoldable pub save_key : ℕ → P.KeyRecord → Exec SqliteTimedKeyStore Unit
  save_key id r = do
    serialized ← lift (or_invalid_state (P.codec.serialize r))
    timestamp ← lift (or_invalid_state (P.timestamp r))
    signature ← lift (or_invalid_state (P.signature r))
    λ s. (
      ok tt,
      record {
        keys =
            insert id
              (record {
                key_data = serialized;
                signature = signature;
                created_at = timestamp / 1000;
                expires_at = timestamp / 1000 + 30 * 24 * 60 * 60;
                is_current = false;
              })
              s.keys;
      },
    )

unfoldable pub key_count : SqliteTimedKeyStore → ℕ
key_count s = length s.keys

unfoldable pub clear_all_keys : Exec SqliteTimedKeyStore Unit
clear_all_keys s = (ok tt, record { keys = [] })

unfoldable pub get_max_key_id : SqliteTimedKeyStore → Outcome (Option ℕ)
get_max_key_id s = ok (max_key s.keys)

unfoldable pub delete_key : ℕ → Exec SqliteTimedKeyStore Unit
delete_key id s = (ok tt, record { keys = erase id s.keys })

-- `SELECT id .. WHERE created_at < ?`
unfoldable pub created_before : ℕ → Assoc ℕ TimedKeyRow → List ℕ
created_before timestamp_secs [] = []
created_before timestamp_secs ((id, row) ∷ rows) =
    let rest = created_before timestamp_secs rows in
    if ltb row.created_at timestamp_secs then id ∷ rest else rest

unfoldable pub get_keys_older_than : SqliteTimedKeyStore → ℕ → Outcome (List ℕ)
unfolding created_before
get_keys_older_than s timestamp_millis = ok (created_before (timestamp_millis / 1000) s.keys)

abbrev not_current : ℕ → Assoc ℕ TimedKeyRow → Assoc ℕ TimedKeyRow
not_current i [] = []
not_current i ((id, row) ∷ rows) =
    (id, (if id == i then record row { is_current = false } else row)) ∷ not_current i rows

-- `UPDATE kyber_pre_keys SET is_current = FALSE WHERE id = ?`
unfoldable pub mark_kyber_pre_key_used : ℕ → Exec SqliteTimedKeyStore Unit
mark_kyber_pre_key_used id s = (ok tt, record { keys = not_current id s.keys })

abbrev pub sqlite_timed_keys : TimedRecordApi → Error → TimedKeyStore
sqlite_timed_keys P missing = record {
  keys = record {
    Store = SqliteTimedKeyStore;
    KeyRecord = P.KeyRecord;
    get = get_key P missing;
    save = save_key P;
    delete = delete_key;
    clear_all = clear_all_keys;
    count = key_count;
    max_id = get_max_key_id;
  };
  timestamp = λ r. or_invalid_state (P.timestamp r);
  older_than = get_keys_older_than;
}
