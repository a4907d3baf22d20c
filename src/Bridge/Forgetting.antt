-- ===== src/Bridge/Forgetting.antt =====
-- What `clear_peer_session` of lib.rs forgets.
use radix_relay.Prelude.{
  ◌≡◌, refl, false, Option, none, String, if◌then◌else◌, ◌==◌, nat_eq, string_eq,
}
use radix_relay.Exec.{ok, err, invalid_input}
use radix_relay.Memory.Address.{ProtocolAddress, address_eq}
use radix_relay.StorageTrait.{StorageContainer, Storage}
use radix_relay.StorageTrait.Peers.{SessionOps, SessionLaws, PeerOps, PeerLaws}
use radix_relay.Bridge.Sessions.{first_device, forget, clear_peer_session}

module _ {C : StorageContainer} {S : SessionOps C.Sessions} {P : PeerOps C.Identities}
    (SL : SessionLaws S) (PL : PeerLaws P) where
  forget-eq :
      (a : ProtocolAddress) (s : Storage C) {o : Option P.IdentityKey}
      → P.get_peer_identity s.identity_store a ≡ ok o
      → forget S P a s ≡ (
        ok tt,
        record s {
          session_store = (S.delete_session a s.session_store).1;
          identity_store = (P.delete_identity a s.identity_store).1;
        },
      )
  forget-eq a s e =
      rw (SL.delete_session-ok a s.session_store, e, PL.delete_identity-ok a s.identity_store)

  -- Where the identity stored for a named peer can be read, clearing the peer returns, and then the
  -- first device of that name has no session and no identity, while those of every other address and
  -- the keys are what they were; without a name it is refused and nothing changes.
  pub clear_peer_session-forgets :
      (peer : String) (s : Storage C) (o : Option P.IdentityKey)
      → (peer == "") ≡ false
      → P.get_peer_identity s.identity_store (first_device peer) ≡ ok o
      → let (r, s') = clear_peer_session S P peer s in
        (r ≡ ok tt)
        × ((a : ProtocolAddress)
            → S.load_session s'.session_store a
              ≡ (if first_device peer == a then ok none else S.load_session s.session_store a))
        × ((a : ProtocolAddress)
            → P.get_peer_identity s'.identity_store a ≡ (
                if first_device peer == a then ok none else P.get_peer_identity s.identity_store a))
        × (s'.pre_key_store ≡ s.pre_key_store)
        × (s'.signed_pre_key_store ≡ s.signed_pre_key_store)
        × (s'.kyber_pre_key_store ≡ s.kyber_pre_key_store)
        × (clear_peer_session S P "" s ≡ (err invalid_input, s))
  unfolding clear_peer_session
  clear_peer_session-forgets peer s o named read =
      rw (named, forget-eq (first_device peer) s read)
        (
          refl,
          SL.load-delete (first_device peer) s.session_store,
          PL.peer-delete (first_device peer) s.identity_store,
          refl,
          refl,
          refl,
          refl,
        )
