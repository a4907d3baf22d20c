-- ===== src/Sqlite/Container.antt =====
-- The laws that the stores of `SqliteStorage` fill, for the clients of the storage traits.
use radix_relay.Prelude.{
  ℕ, ◌≡◌, refl, ◌∙◌, inl, inr, none, List, [], length, ◌==◌, Bool-cases, Option-cases, nat_eq,
  arith,
}
use radix_relay.Prelude.Assoc.{Assoc, lookup, lookup-erase, lookup-length}
use radix_relay.Exec.{ok, invalid_signed_pre_key_id, invalid_kyber_pre_key_id}
use radix_relay.Memory.Address.{ProtocolAddress, address_eq}
use radix_relay.StorageTrait.{StorageContainerLaws}
use radix_relay.StorageTrait.Peers.{SessionOps, SessionLaws, PeerOps, PeerLaws}
use radix_relay.Sqlite.{Codec, IsCodec}
use radix_relay.Sqlite.Sessions.{SqliteSessionStore}
use radix_relay.Sqlite.Sessions as Sessions
use radix_relay.Sqlite.Identities.{SqliteIdentityStore, IdentityKeyApi}
use radix_relay.Sqlite.Identities as Identities
use radix_relay.Sqlite.Laws.{sqlite_pre_key_laws}
use radix_relay.Sqlite.TimedLaws.{sqlite_timed_laws}
use radix_relay.Sqlite.Storage.{SqliteApi, SqliteContainer}

-- An address that a table of no rows is asked for.
lookup_no_rows :
    (m : Assoc ProtocolAddress (List ℕ)) (a : ProtocolAddress) → length m ≡ 0 → lookup a m ≡ none
lookup_no_rows m a e = elim (Option-cases (lookup a m)) [
  | inl gone ↦ gone
  | inr (w, there) ↦ absurd (omega (arith, lookup-length a m there))
]

module _ {SessionRecord : Type 0} (codec : Codec SessionRecord) where
  abbrev pub sqlite_sessions_ops : SessionOps SqliteSessionStore
  sqlite_sessions_ops = record {
    SessionRecord = SessionRecord;
    load_session = Sessions.load_session codec;
    session_count = Sessions.session_count;
    clear_all_sessions = Sessions.clear_all_sessions;
    delete_session = Sessions.delete_session;
  }

  load_session-cong :
      (s t : SqliteSessionStore) (a b : ProtocolAddress)
      → lookup a s.sessions ≡ lookup b t.sessions
      → Sessions.load_session codec s a ≡ Sessions.load_session codec t b
  unfolding Sessions.load_session
  load_session-cong s t a b e = rw (e, Sessions.load_session)

  load_session-absent :
      (s : SqliteSessionStore) (a : ProtocolAddress)
      → lookup a s.sessions ≡ none
      → Sessions.load_session codec s a ≡ ok none
  unfolding Sessions.load_session
  load_session-absent s a e = rw (e, Sessions.load_session)

  pub sqlite-SessionLaws : SessionLaws sqlite_sessions_ops
  unfolding Sessions.session_count Sessions.clear_all_sessions Sessions.delete_session lookup
  sqlite-SessionLaws = record {
    clear_sessions-ok = λ s. refl;
    load-clear = λ s a. load_session-absent (record { sessions = [] }) a refl;
    load-empty = λ s a e. load_session-absent s a (lookup_no_rows s.sessions a e);
    delete_session-ok = λ a s. refl;
    load-delete = λ a s b.
        let t = (Sessions.delete_session a s).1 in
        elim (Bool-cases (a == b)) [
          | inl same ↦ rw same (load_session-absent t b (lookup-erase a b s.sessions ∙ rw same))
          | inr other ↦
              rw other (load_session-cong t s b b (lookup-erase a b s.sessions ∙ rw other))
        ];
  }

module _ (P : IdentityKeyApi) where
  abbrev pub sqlite_peer_ops : PeerOps SqliteIdentityStore
  sqlite_peer_ops = record {
    IdentityKey = P.IdentityKey;
    identity_count = Identities.identity_count;
    get_peer_identity = Identities.get_peer_identity P;
    delete_identity = Identities.delete_identity;
    clear_all_identities = Identities.clear_all_identities;
    clear_local_identity = Identities.clear_local_identity;
  }

  pub sqlite-PeerLaws : PeerLaws sqlite_peer_ops
  unfolding Identities.identity_count Identities.get_peer_identity Identities.delete_identity
      Identities.clear_all_identities Identities.clear_local_identity lookup
  sqlite-PeerLaws = record {
    clear_identities-ok = λ s. refl;
    peer-clear = λ s a. refl;
    peer-empty = λ s a e. rw (lookup_no_rows s.identity_keys a e);
    delete_identity-ok = λ a s. refl;
    peer-delete = λ a s b.
        rw (lookup-erase a b s.identity_keys)
          (elim (Bool-cases (a == b)) [ inl same ↦ rw same | inr other ↦ rw other ]);
    clear_local-ok = λ s. refl;
    peer-clear_local = λ s a. refl;
  }

module _ (A : SqliteApi) where
  abbrev pub sqlite_container_laws :
      IsCodec A.pre_key_codec
      → IsCodec A.signed_api.codec
      → IsCodec A.kyber_api.codec
      → StorageContainerLaws (SqliteContainer A)
  sqlite_container_laws c d e = record {
    pre_key_laws = sqlite_pre_key_laws A.PreKeyRecord A.pre_key_codec c;
    signed_pre_key_laws = sqlite_timed_laws A.signed_api invalid_signed_pre_key_id d;
    kyber_pre_key_laws = sqlite_timed_laws A.kyber_api invalid_kyber_pre_key_id e;
  }
