-- ===== src/StorageTrait/Peers.antt =====
-- The traits for sessions and for the identities of peers in
-- rust/signal_bridge/src/storage_trait.rs, as records of operations on the type of a store, with
-- what the clients of a backend rely on.
use radix_relay.Prelude.{ℕ, ◌≡◌, Option, none, if◌then◌else◌, ◌==◌}
use radix_relay.Exec.{Exec, Outcome, ok}
use radix_relay.Memory.Address.{ProtocolAddress, address_eq}

-- `ExtendedSessionStore`, and of libsignal's `SessionStore` the loading.
pub record SessionOps (Store : Type 0) : Type 1 where
  pub SessionRecord : Type 0
  pub load_session : Store → ProtocolAddress → Outcome (Option SessionRecord)
  pub session_count : Store → ℕ
  pub clear_all_sessions : Exec Store Unit
  pub delete_session : ProtocolAddress → Exec Store Unit

pub record SessionLaws {Store : Type 0} (S : SessionOps Store) : Type 0 where
  pub clear_sessions-ok : (s : Store) → (S.clear_all_sessions s).0 ≡ ok tt
  pub load-clear :
      (s : Store) (a : ProtocolAddress) → S.load_session (S.clear_all_sessions s).1 a ≡ ok none
  pub load-empty :
      (s : Store) (a : ProtocolAddress) → S.session_count s ≡ 0 → S.load_session s a ≡ ok none
  pub delete_session-ok : (a : ProtocolAddress) (s : Store) → (S.delete_session a s).0 ≡ ok tt
  pub load-delete :
      (a : ProtocolAddress) (s : Store) (b : ProtocolAddress)
      → S.load_session (S.delete_session a s).1 b ≡ (if a == b then ok none else S.load_session s b)

-- Of `ExtendedIdentityStore`, what concerns peers, and the clearing of the local identity.
pub record PeerOps (Store : Type 0) : Type 1 where
  pub IdentityKey : Type 0
  pub identity_count : Store → ℕ
  pub get_peer_identity : Store → ProtocolAddress → Outcome (Option IdentityKey)
  pub delete_identity : ProtocolAddress → Exec Store Unit
  pub clear_all_identities : Exec Store Unit
  pub clear_local_identity : Exec Store Unit

pub record PeerLaws {Store : Type 0} (P : PeerOps Store) : Type 0 where
  pub clear_identities-ok : (s : Store) → (P.clear_all_identities s).0 ≡ ok tt
  pub peer-clear :
      (s : Store) (a : ProtocolAddress)
      → P.get_peer_identity (P.clear_all_identities s).1 a ≡ ok none
  pub peer-empty :
      (s : Store) (a : ProtocolAddress) → P.identity_count s ≡ 0 → P.get_peer_identity s a ≡ ok none
  pub delete_identity-ok : (a : ProtocolAddress) (s : Store) → (P.delete_identity a s).0 ≡ ok tt
  pub peer-delete :
      (a : ProtocolAddress) (s : Store) (b : ProtocolAddress)
      → P.get_peer_identity (P.delete_identity a s).1 b
        ≡ (if a == b then ok none else P.get_peer_identity s b)
  pub clear_local-ok : (s : Store) → (P.clear_local_identity s).0 ≡ ok tt
  pub peer-clear_local :
      (s : Store) (a : ProtocolAddress)
      → P.get_peer_identity (P.clear_local_identity s).1 a ≡ P.get_peer_identity s a
