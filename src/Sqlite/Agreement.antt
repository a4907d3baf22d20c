-- ===== src/Sqlite/Agreement.antt =====
-- The stores of one-time pre-keys in memory_storage.rs and in sqlite_storage.rs, side by side.
use radix_relay.Prelude.{ℕ, ◌≡◌, ◌∙◌, sym, none, List, [], ◌∷◌}
use radix_relay.Prelude.Assoc.{lookup}
use radix_relay.Exec.{err, invalid_pre_key_id}
use radix_relay.StorageTrait.Tables.{table_laws}
use radix_relay.StorageTrait.Runs.{
  KeyCall, save_call, delete_call, clear_call, after_key_calls, replay, answer, AllFit,
  after_key_calls-replays,
}
use radix_relay.Memory.PreKeys.{PreKeyApi, MemoryPreKeyStore, memory_pre_keys}
use radix_relay.Memory.PreKeys as InMemory
use radix_relay.Memory.PreKeyLaws.{Rebuilds, memory_pre_key_laws}
use radix_relay.Sqlite.{Codec, IsCodec}
use radix_relay.Sqlite.PreKeys.{SqlitePreKeyStore, sqlite_pre_keys}
use radix_relay.Sqlite.PreKeys as InSqlite
use radix_relay.Sqlite.Laws.{Serializes, sqlite_pre_key_table, sqlite_pre_key_laws}

module _ {R : Type 0} (P Q : ℕ → R → Type 0) where
  left_fit : (cs : List (KeyCall R)) → AllFit (λ i r. P i r × Q i r) cs → AllFit P cs
  left_fit [] h = tt
  left_fit (save_call i r ∷ cs) h = (h.0.0, left_fit cs h.1)
  left_fit (delete_call i ∷ cs) h = left_fit cs h
  left_fit (clear_call ∷ cs) h = left_fit cs h

  right_fit : (cs : List (KeyCall R)) → AllFit (λ i r. P i r × Q i r) cs → AllFit Q cs
  right_fit [] h = tt
  right_fit (save_call i r ∷ cs) h = (h.0.1, right_fit cs h.1)
  right_fit (delete_call i ∷ cs) h = right_fit cs h
  right_fit (clear_call ∷ cs) h = right_fit cs h

module _ (P : PreKeyApi) (codec : Codec P.PreKeyRecord) where
  abbrev pub fresh_memory : MemoryPreKeyStore P
  fresh_memory = record { pre_keys = [] }

  abbrev pub fresh_sqlite : SqlitePreKeyStore
  fresh_sqlite = record { pre_keys = [] }

  -- A record that the store in memory makes again from its id and key pair, and that can be
  -- serialized.
  abbrev pub FitsBoth : ℕ → P.PreKeyRecord → Type 0
  FitsBoth i r = Rebuilds P i r × Serializes codec r

  memory-answers :
      (cs : List (KeyCall P.PreKeyRecord)) (i : ℕ)
      → AllFit (Rebuilds P) cs
      → InMemory.get_pre_key (after_key_calls (memory_pre_keys P) cs fresh_memory) i
        ≡ answer (err invalid_pre_key_id) (replay cs (λ j. none) i)
  unfolding memory_pre_key_laws lookup
  memory-answers cs i h = (after_key_calls-replays (memory_pre_key_laws P) cs fresh_memory tt h).1 i

  -- If what was serialized is read back, then after any sequence of savings of records that can be
  -- serialized, of deletions and of clearings, the SQLite store of one-time pre-keys, started empty,
  -- answers for every id as the same calls on a function from ids to records say, and with the error
  -- for an invalid id where that has no record.
  pub sqlite_pre_keys-replays :
      (cs : List (KeyCall P.PreKeyRecord)) (i : ℕ)
      → IsCodec codec
      → AllFit (λ j r. Serializes codec r) cs
      → InSqlite.get_pre_key codec
          (after_key_calls (sqlite_pre_keys P.PreKeyRecord codec) cs fresh_sqlite)
          i
        ≡ answer (err invalid_pre_key_id) (replay cs (λ j. none) i)
  unfolding sqlite_pre_key_laws sqlite_pre_key_table table_laws lookup
  sqlite_pre_keys-replays cs i inverse h =
      (after_key_calls-replays (sqlite_pre_key_laws P.PreKeyRecord codec inverse) cs fresh_sqlite
          (tt, λ j w e. cc) h).1
        i

  -- If what was serialized is read back, the two stores of one-time pre-keys, started empty, answer
  -- alike: after any sequence of savings of fitting records, of deletions and of clearings, they
  -- give the same record or the same error for every id.
  pub pre_key_stores-agree :
      (cs : List (KeyCall P.PreKeyRecord)) (i : ℕ)
      → IsCodec codec
      → AllFit FitsBoth cs
      → InSqlite.get_pre_key codec
          (after_key_calls (sqlite_pre_keys P.PreKeyRecord codec) cs fresh_sqlite)
          i
        ≡ InMemory.get_pre_key (after_key_calls (memory_pre_keys P) cs fresh_memory) i
  pre_key_stores-agree cs i inverse h =
      sqlite_pre_keys-replays cs i inverse (right_fit (Rebuilds P) (λ j r. Serializes codec r) cs h)
      ∙ sym (memory-answers cs i (left_fit (Rebuilds P) (λ j r. Serializes codec r) cs h))
