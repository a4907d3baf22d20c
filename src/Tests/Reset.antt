-- ===== src/Tests/Reset.antt =====
-- Forgetting a peer and resetting the identity of an SQLite storage.
use radix_relay.Prelude.{
  ℕ, suc, ◌≤◌, ◌<◌, ◌≡◌, refl, true, none, some, [], ◌∷◌, ◌==◌, string_eq, nat_eq, if◌then◌else◌,
  arith,
}
use radix_relay.Prelude.Assoc.{lookup}
use radix_relay.Exec.{ok, err, invalid_state, invalid_input}
use radix_relay.Memory.Address.{ProtocolAddress, address_eq}
use radix_relay.StorageTrait.{Storage, StorageContainerLaws}
use radix_relay.StorageTrait.Tables.{table_laws}
use radix_relay.StorageTrait.Peers.{SessionOps, PeerOps}
use radix_relay.Keys.{KeyApi, KeyApiLaws}
use radix_relay.Bridge.{IdentityStore}
use radix_relay.Bridge.Sessions.{first_device, clear_peer_session, reset_identity}
use radix_relay.KeyRotation.Replenish.{drawn}
use radix_relay.Bridge.Remade.{record_of}
use radix_relay.Bridge.Reset.{LocalLaws, reset_identity-fresh}
use radix_relay.Bridge.Forgetting.{clear_peer_session-forgets}
use radix_relay.Sqlite.Sessions.{SqliteSessionStore}
use radix_relay.Sqlite.Identities.{
  SqliteIdentityStore, get_identity_key_pair, set_local_identity_key_pair,
  set_local_registration_id, get_peer_identity, clear_local_identity,
}
use radix_relay.Sqlite.Laws.{sqlite_pre_key_table, sqlite_pre_key_laws}
use radix_relay.Sqlite.TimedKeys.{TimedKeyRow}
use radix_relay.Sqlite.TimedLaws.{sqlite_timed_table, sqlite_timed_laws}
use radix_relay.Sqlite.Storage.{SqliteContainer}
use radix_relay.Sqlite.Container.{
  sqlite_sessions_ops, sqlite-SessionLaws, sqlite_peer_ops, sqlite-PeerLaws, sqlite_container_laws,
}
use radix_relay.Tests.Backends.{number_codec, pair_codec-IsCodec, identity_api}
use radix_relay.Tests.Files.{sqlite_api, no_stores}

abbrev pub key_api : KeyApi (SqliteContainer sqlite_api)
key_api = record {
  Rng = ℕ;
  KeyPair = ℕ;
  KemKeyPair = ℕ;
  Signature = ℕ;
  IdentityKeyPair = ℕ;
  generate = λ r. (r, suc r);
  generate_kem = λ r. (r, suc r);
  generate_identity = λ r. (r, suc r);
  random_u32 = λ r. r;
  calculate_signature = λ i k r. (ok k, suc r);
  calculate_kem_signature = λ i k r. (ok k, suc r);
  new_pre_key = λ i k. (i, k);
  new_signed_pre_key = λ i now k g. (i, now);
  signed_pre_key_id = λ k. ok k.0;
  new_kyber_pre_key = λ i now k g. (i, now);
}

abbrev pub container_laws : StorageContainerLaws (SqliteContainer sqlite_api)
container_laws =
    sqlite_container_laws sqlite_api pair_codec-IsCodec pair_codec-IsCodec pair_codec-IsCodec

pub key_api_laws : KeyApiLaws (SqliteContainer sqlite_api) container_laws key_api
unfolding sqlite_pre_key_laws sqlite_pre_key_table sqlite_timed_laws sqlite_timed_table table_laws
key_api_laws = record {
  pre_key-Fits = λ i k. (i ∷ k ∷ [], refl);
  signed_pre_key-Fits = λ i now k g. (i ∷ now ∷ [], refl, now, refl, [], refl);
  kyber_pre_key-Fits = λ i now k g. (i ∷ now ∷ [], refl, now, refl, [], refl);
  signed_pre_key_id-new = λ i now k g. refl;
  signed_timestamp-new = λ i now k g. refl;
  kyber_timestamp-new = λ i now k g. refl;
}

abbrev pub identity_store : IdentityStore (SqliteContainer sqlite_api) key_api
identity_store = record {
  get_identity_key_pair = get_identity_key_pair identity_api;
  set_local_identity_key_pair = set_local_identity_key_pair identity_api;
  set_local_registration_id = set_local_registration_id;
}

abbrev pub session_ops : SessionOps SqliteSessionStore
session_ops = sqlite_sessions_ops number_codec

abbrev pub peer_ops : PeerOps SqliteIdentityStore
peer_ops = sqlite_peer_ops identity_api

pub local_laws : LocalLaws identity_store peer_ops
unfolding get_identity_key_pair set_local_identity_key_pair set_local_registration_id
    get_peer_identity clear_local_identity
local_laws = record {
  pair-clear_local = λ s. (invalid_state, refl);
  set_pair-ok = λ p s. refl;
  set_registration-ok = λ n s. refl;
  pair-set = λ p n s. refl;
  peer-set = λ p n s a. refl;
}

abbrev old_row : TimedKeyRow
old_row = record {
  key_data = 2 ∷ 5000 ∷ [];
  signature = [];
  created_at = 5;
  expires_at = 2592005;
  is_current = true;
}

-- One peer, one key of each kind.
abbrev pub used : Storage (SqliteContainer sqlite_api)
used = record {
  session_store = record { sessions = (first_device "bob", 4 ∷ []) ∷ [] };
  identity_store = record {
    local_identity = none;
    identity_keys = (first_device "bob", 9 ∷ []) ∷ [];
  };
  pre_key_store = record { pre_keys = (3, 3 ∷ 7 ∷ []) ∷ [] };
  signed_pre_key_store = record { keys = (2, old_row) ∷ [] };
  kyber_pre_key_store = record { keys = (2, old_row) ∷ [] };
}

clear_peer_session-forgets_example :
    let (r, s') = clear_peer_session session_ops peer_ops "bob" used in
    (r ≡ ok tt)
    × ((a : ProtocolAddress)
        → session_ops.load_session s'.session_store a ≡ (
            if first_device "bob" == a
            then ok none
            else session_ops.load_session used.session_store a))
    × ((a : ProtocolAddress)
        → peer_ops.get_peer_identity s'.identity_store a ≡ (
            if first_device "bob" == a
            then ok none
            else peer_ops.get_peer_identity used.identity_store a))
    × (s'.pre_key_store ≡ used.pre_key_store)
    × (s'.signed_pre_key_store ≡ used.signed_pre_key_store)
    × (s'.kyber_pre_key_store ≡ used.kyber_pre_key_store)
    × (clear_peer_session session_ops peer_ops "" used ≡ (err invalid_input, used))
unfolding get_peer_identity lookup
clear_peer_session-forgets_example =
    clear_peer_session-forgets (sqlite-SessionLaws number_codec) (sqlite-PeerLaws identity_api)
      "bob" used (some 9) refl refl

used-Valid :
    container_laws.pre_key_laws.Valid used.pre_key_store
    × container_laws.signed_pre_key_laws.laws.Valid used.signed_pre_key_store
    × container_laws.kyber_pre_key_laws.laws.Valid used.kyber_pre_key_store
unfolding sqlite_pre_key_laws sqlite_pre_key_table sqlite_timed_laws sqlite_timed_table table_laws
    lookup
used-Valid = (
  ((refl, tt), λ i w e. let f : (3 ∷ 7 ∷ []) ≡ w = ground arith in rw (← f) ((3, 7), refl)),
  (
    (refl, tt),
    λ i w e. let f : old_row ≡ w = ground arith in rw (← f) ((2, 5000), refl, 5000, refl, refl),
  ),
  (
    (refl, tt),
    λ i w e. let f : old_row ≡ w = ground arith in rw (← f) ((2, 5000), refl, 5000, refl, refl),
  ),
)

reset_identity-fresh_example :
    let (r, s') =
      reset_identity session_ops peer_ops true key_api identity_store (λ n. n) 2000000000 used in
    (r ≡ ok tt)
    × (identity_store.get_identity_key_pair s'.identity_store ≡ ok 0)
    × ((a : ProtocolAddress) → session_ops.load_session s'.session_store a ≡ ok none)
    × ((a : ProtocolAddress) → peer_ops.get_peer_identity s'.identity_store a ≡ ok none)
    × (container_laws.pre_key_laws.Valid s'.pre_key_store
        × container_laws.signed_pre_key_laws.laws.Valid s'.signed_pre_key_store
        × container_laws.kyber_pre_key_laws.laws.Valid s'.kyber_pre_key_store)
    × (5 ≤ (SqliteContainer sqlite_api).pre_keys.count s'.pre_key_store)
    × (0 < (SqliteContainer sqlite_api).signed_pre_keys.count s'.signed_pre_key_store)
    × (0 < (SqliteContainer sqlite_api).kyber_pre_keys.count s'.kyber_pre_key_store)
    × ((j : ℕ)
        → container_laws.pre_key_laws.find s'.pre_key_store j
          ≡ record_of key_api (drawn key_api 1 100 2) j)
    × ((j : ℕ)
        → container_laws.signed_pre_key_laws.laws.find s'.signed_pre_key_store j
          ≡ (if 1 == j then some (1, 2000000000) else none))
    × ((j : ℕ)
        → container_laws.kyber_pre_key_laws.laws.find s'.kyber_pre_key_store j
          ≡ (if 1 == j then some (1, 2000000000) else none))
reset_identity-fresh_example =
    reset_identity-fresh true container_laws key_api key_api_laws identity_store session_ops
      peer_ops (sqlite-SessionLaws number_codec) (sqlite-PeerLaws identity_api) local_laws (λ n. n)
      2000000000 used {g = 3} {h = 4} used-Valid refl refl

pub no_stores-Valid :
    container_laws.pre_key_laws.Valid no_stores.pre_key_store
    × container_laws.signed_pre_key_laws.laws.Valid no_stores.signed_pre_key_store
    × container_laws.kyber_pre_key_laws.laws.Valid no_stores.kyber_pre_key_store
unfolding sqlite_pre_key_laws sqlite_pre_key_table sqlite_timed_laws sqlite_timed_table table_laws
    lookup
no_stores-Valid = ((tt, λ i w e. cc), (tt, λ i w e. cc), (tt, λ i w e. cc))
