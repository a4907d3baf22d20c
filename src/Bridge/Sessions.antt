-- ===== src/Bridge/Sessions.antt =====
-- The operations of rust/signal_bridge/src/lib.rs that forget sessions, peers and the identity:
-- `cleanup_all_sessions`, `clear_peer_session`, `clear_all_sessions` and `reset_identity`.
use radix_relay.Prelude.{ℕ, Bool, Option, String, ◌||◌, ltb, if◌then◌else◌, ◌==◌, string_eq}
use radix_relay.Exec.{
  Exec, Outcome, ok, err, panic, invalid_input, pure, raise, lift, gets, ◌>>=◌, ◌>>◌,
}
use radix_relay.Memory.Address.{ProtocolAddress}
use radix_relay.NostrIdentity.{codes}
use radix_relay.StorageTrait.{
  StorageContainer, Storage, on_pre_keys, on_signed_pre_keys, on_kyber_pre_keys,
}
use radix_relay.StorageTrait.Peers.{SessionOps, PeerOps}
use radix_relay.Keys.{KeyApi}
use radix_relay.Bridge.{IdentityStore, on_identities, ensure_keys_exist}

abbrev pub on_sessions :
    {C : StorageContainer} {A : Type 0} → Exec C.Sessions A → Exec (Storage C) A
on_sessions m s = let (r, t) = m s.session_store in (r, record s { session_store = t })

-- `ProtocolAddress::new(peer.to_string(), DeviceId::new(1))`
abbrev pub first_device : String → ProtocolAddress
first_device peer = record { name = codes peer; device_id = 1 }

module _ {C : StorageContainer} (S : SessionOps C.Sessions) where
  unfoldable pub cleanup_all_sessions : Exec (Storage C) Unit
  cleanup_all_sessions = do
    session_count ← gets (λ s. S.session_count s.session_store)
    if ltb 0 session_count then on_sessions S.clear_all_sessions else pure tt

module _ {Identities : Type 0} (P : PeerOps Identities) where
  -- `if get_peer_identity(..).is_ok() { delete_identity(..)? }`
  abbrev pub delete_if_read :
      Outcome (Option P.IdentityKey) → ProtocolAddress → Exec Identities Unit
  delete_if_read (ok _) address = P.delete_identity address
  delete_if_read (err _) address = pure tt
  delete_if_read panic address = lift panic

  abbrev pub delete_peer : ProtocolAddress → Exec Identities Unit
  delete_peer address s = delete_if_read (P.get_peer_identity s address) address s

module _ {C : StorageContainer} (S : SessionOps C.Sessions) (P : PeerOps C.Identities) where
  abbrev pub forget : ProtocolAddress → Exec (Storage C) Unit
  forget address = do on_sessions (S.delete_session address); on_identities (delete_peer P address)

  unfoldable pub clear_peer_session : String → Exec (Storage C) Unit
  clear_peer_session peer = if peer == "" then raise invalid_input else forget (first_device peer)

  abbrev pub clear_both : Exec (Storage C) Unit
  clear_both = do on_sessions S.clear_all_sessions; on_identities P.clear_all_identities

  unfoldable pub clear_all_sessions : Exec (Storage C) Unit
  clear_all_sessions s =
      let session_count = S.session_count s.session_store in
      let identity_count = P.identity_count s.identity_store in
      if ltb 0 session_count || ltb 0 identity_count then clear_both s else (ok tt, s)

  module _ (overflow_checks : Bool) (K : KeyApi C) (I : IdentityStore C K) where
    unfoldable pub reset_identity : (ℕ → K.Rng) → ℕ → Exec (Storage C) Unit
    unfolding clear_all_sessions ensure_keys_exist
    reset_identity rng now = do
      clear_all_sessions
      on_pre_keys C.pre_keys.clear_all
      on_signed_pre_keys C.signed_pre_keys.clear_all
      on_kyber_pre_keys C.kyber_pre_keys.clear_all
      on_identities P.clear_local_identity
      ensure_keys_exist overflow_checks K I rng now
      pure tt
