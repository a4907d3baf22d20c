-- ===== src/Tests/Backends.antt =====
-- The two storage backends side by side on small stand-ins for libsignal's records, and the life of
-- an SQLite storage.
use radix_relay.Prelude.{ℕ, ◌≡◌, refl, Option, none, some, List, [], ◌∷◌, nat_eq}
use radix_relay.Exec.{err, invalid_pre_key_id}
use radix_relay.Memory.Address.{ProtocolAddress}
use radix_relay.StorageTrait.Runs.{KeyCall, save_call, delete_call, after_key_calls, replay, answer}
use radix_relay.Memory.PreKeys.{MemoryPreKeyStore, memory_pre_keys}
use radix_relay.Memory.PreKeys as InMemory
use radix_relay.Memory.Identities.{MemoryIdentityStore, sending}
use radix_relay.Memory.Identities as MemoryIdentities
use radix_relay.Memory.Sessions as MemorySessions
use radix_relay.Sqlite.{Codec, IsCodec}
use radix_relay.Sqlite.PreKeys.{sqlite_pre_keys}
use radix_relay.Sqlite.PreKeys as InSqlite
use radix_relay.Sqlite.Sessions as SqliteSessions
use radix_relay.Sqlite.Sessions.{SqliteSessionStore}
use radix_relay.Sqlite.Identities.{SqliteIdentityStore, IdentityKeyApi}
use radix_relay.Sqlite.Identities as SqliteIdentities
use radix_relay.Sqlite.Agreement.{
  fresh_memory, fresh_sqlite, sqlite_pre_keys-replays, pre_key_stores-agree,
}
use radix_relay.Sqlite.Peers.{
  PeerCall, put_call, drop_call, memory_sessions, sqlite_sessions, session_stores-agree,
}
use radix_relay.Sqlite.PeerKeys.{memory_identities, sqlite_identities, identity_stores-agree}
use radix_relay.Tests.Keys.{pre_key_api}

abbrev calls : List (KeyCall (ℕ × ℕ))
calls = save_call 1 (1, 7) ∷ save_call 2 (2, 8) ∷ delete_call 1 ∷ []

abbrev pair_from : List ℕ → Option (ℕ × ℕ)
pair_from [] = none
pair_from (a ∷ []) = none
pair_from (a ∷ b ∷ bs) = some (a, b)

abbrev pub pair_codec : Codec (ℕ × ℕ)
pair_codec = record { serialize = λ p. some (p.0 ∷ p.1 ∷ []); deserialize = pair_from }

pub pair_codec-IsCodec : IsCodec pair_codec
pair_codec-IsCodec a b h = let e : (a.0 ∷ a.1 ∷ []) ≡ b = cc in rw (← e) refl

pre_key_stores-agree_example :
    InSqlite.get_pre_key pair_codec
      (after_key_calls
        (sqlite_pre_keys (ℕ × ℕ) pair_codec)
        calls
        (fresh_sqlite pre_key_api pair_codec))
      2
    ≡ InMemory.get_pre_key
        (after_key_calls (memory_pre_keys pre_key_api) calls (fresh_memory pre_key_api pair_codec))
        2
pre_key_stores-agree_example =
    pre_key_stores-agree pre_key_api pair_codec calls 2 pair_codec-IsCodec
      (((7, refl, refl), (1 ∷ 7 ∷ [], refl)), (((8, refl, refl), (2 ∷ 8 ∷ [], refl)), tt))

sqlite_pre_keys-replays_example :
    InSqlite.get_pre_key pair_codec
      (after_key_calls
        (sqlite_pre_keys (ℕ × ℕ) pair_codec)
        calls
        (fresh_sqlite pre_key_api pair_codec))
      1
    ≡ answer (err invalid_pre_key_id) (replay calls (λ j. none) 1)
sqlite_pre_keys-replays_example =
    sqlite_pre_keys-replays pre_key_api pair_codec calls 1 pair_codec-IsCodec
      ((1 ∷ 7 ∷ [], refl), ((2 ∷ 8 ∷ [], refl), tt))

abbrev phone : ProtocolAddress
phone = record { name = b'a' ∷ []; device_id = 1 }

abbrev laptop : ProtocolAddress
laptop = record { name = b'a' ∷ []; device_id = 2 }

abbrev number_from : List ℕ → Option ℕ
number_from [] = none
number_from (a ∷ bs) = some a

abbrev pub number_codec : Codec ℕ
number_codec = record { serialize = λ n. some (n ∷ []); deserialize = number_from }

number_codec-IsCodec : IsCodec number_codec
number_codec-IsCodec a b h = let e : (a ∷ []) ≡ b = cc in rw (← e) refl

abbrev peer_calls : List (PeerCall ℕ)
peer_calls = put_call phone 4 ∷ put_call laptop 5 ∷ drop_call phone ∷ put_call phone 6 ∷ []

session_stores-agree_example :
    SqliteSessions.load_session number_codec
      (sqlite_sessions number_codec peer_calls (record { sessions = [] }))
      phone
    ≡ MemorySessions.load_session (memory_sessions peer_calls (record { sessions = [] })) phone
session_stores-agree_example =
    session_stores-agree number_codec peer_calls phone number_codec-IsCodec
      ((4 ∷ [], refl), ((5 ∷ [], refl), ((6 ∷ [], refl), tt)))

abbrev pub identity_api : IdentityKeyApi
identity_api = record {
  IdentityKey = ℕ;
  IdentityKeyPair = ℕ;
  serialize_key = λ n. n ∷ [];
  decode_key = number_from;
  serialize_pair = λ n. n ∷ [];
  decode_pair = number_from;
  identity_key = λ n. n;
}

abbrev sqlite_start : SqliteIdentityStore
sqlite_start = record { local_identity = none; identity_keys = [] }

abbrev memory_start : MemoryIdentityStore ℕ ℕ
memory_start = record {
  identity_keys = [];
  local_identity_key_pair = none;
  local_registration_id = none;
}

identity_stores-agree_example :
    let t = sqlite_identities identity_api peer_calls sqlite_start in
    let n = memory_identities peer_calls memory_start in
    (SqliteIdentities.is_trusted_identity identity_api t phone 4 sending
      ≡ MemoryIdentities.is_trusted_identity n phone 4 sending)
    × ((SqliteIdentities.save_identity identity_api phone 4 t).0
        ≡ (MemoryIdentities.save_identity phone 4 n).0)
identity_stores-agree_example =
    identity_stores-agree identity_api peer_calls sqlite_start memory_start phone 4 sending
      number_codec-IsCodec refl refl
