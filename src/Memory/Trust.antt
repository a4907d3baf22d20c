-- ===== src/Memory/Trust.antt =====
-- Trust on first use, and sessions by address: the maps of memory_storage.rs as a peer sees them.
use radix_relay.Prelude.{
  ◌≡◌, ◌≢◌, ◌↔◌, refl, inl, inr, true, false, none, some, Eq, ◌==◌, Bool-cases, Option-cases,
}
use radix_relay.Prelude.Assoc.{lookup, lookup-insert, lookup-erase}
use radix_relay.Prelude.Decimal.{codes_eq, list_eqb_iff}
use radix_relay.Exec.{ok}
use radix_relay.Memory.Address.{ProtocolAddress, address_key, address_key-injective}
use radix_relay.Memory.Sessions.{MemorySessionStore, load_session, store_session, delete_session}
use radix_relay.Memory.Identities.{
  MemoryIdentityStore, replaced_existing, Direction, save_identity, is_trusted_identity,
  delete_identity,
}

-- Keys tell addresses apart.
key-eq_false : (a b : ProtocolAddress) → a ≢ b → (address_key a == address_key b) ≡ false
key-eq_false a b ne = elim (Bool-cases (address_key a == address_key b)) [
  | inl same ↦
      absurd
        (ne (address_key-injective a b ((list_eqb_iff (address_key a) (address_key b)).0 same)))
  | inr other ↦ other
]

key-eq_true : (a : ProtocolAddress) → (address_key a == address_key a) ≡ true
key-eq_true a = (list_eqb_iff (address_key a) (address_key a)).1 refl

module _ {SessionRecord : Type 0} where
  -- A stored session is loaded under its own address, and every other address, another device of
  -- the same name among them, loads what it loaded before; after a deletion the address loads
  -- nothing, and every other address what it loaded before.
  load_session-store_delete :
      (s : MemorySessionStore SessionRecord) (a b : ProtocolAddress) (r : SessionRecord)
      → a ≢ b
      → let stored = (store_session a r s).1 in
        let deleted = (delete_session a s).1 in
        (load_session stored a ≡ ok (some r))
        × (load_session stored b ≡ load_session s b)
        × (load_session deleted a ≡ ok none)
        × (load_session deleted b ≡ load_session s b)
  unfolding load_session store_session delete_session
  load_session-store_delete s a b r ne =
      let ka = address_key a in
      let kb = address_key b in
      (
        rw (lookup-insert ka ka r s.sessions, key-eq_true a),
        rw (lookup-insert ka kb r s.sessions, key-eq_false a b ne),
        rw (lookup-erase ka ka s.sessions, key-eq_true a),
        rw (lookup-erase ka kb s.sessions, key-eq_false a b ne),
      )

module _ {IdentityKey IdentityKeyPair : Type 0} ⦃e : Eq IdentityKey⦄ where
  -- After a key has been saved for a peer, exactly that key is trusted for it, in either
  -- direction, and nothing has changed for any other peer; a peer whose key has been deleted is
  -- trusted on first use again.
  pub is_trusted_identity-save_delete :
      (s : MemoryIdentityStore IdentityKey IdentityKeyPair) (a b : ProtocolAddress)
      (k q : IdentityKey) (d : Direction)
      → a ≢ b
      → let saved = (save_identity a k s).1 in
        (is_trusted_identity saved a q d ≡ ok (k == q))
        × (is_trusted_identity saved b q d ≡ is_trusted_identity s b q d)
        × (is_trusted_identity (delete_identity a saved).1 a q d ≡ ok true)
  unfolding save_identity is_trusted_identity delete_identity
  is_trusted_identity-save_delete s a b k q d ne =
      let ka = address_key a in
      let kb = address_key b in
      let saved = (save_identity a k s).1 in
      (
        rw (lookup-insert ka ka k s.identity_keys, key-eq_true a),
        rw (lookup-insert ka kb k s.identity_keys, key-eq_false a b ne),
        rw (lookup-erase ka ka saved.identity_keys, key-eq_true a),
      )

  -- Saving a key reports a replacement exactly when that key was not trusted before.
  pub save_identity-replaced_iff :
      (s : MemoryIdentityStore IdentityKey IdentityKeyPair) (a : ProtocolAddress) (k : IdentityKey)
      (d : Direction)
      → ((save_identity a k s).0 ≡ ok replaced_existing) ↔ (is_trusted_identity s a k d ≡ ok false)
  unfolding save_identity is_trusted_identity
  save_identity-replaced_iff s a k d =
      elim (Option-cases (lookup (address_key a) s.identity_keys)) [
        | inl first ↦ rw first ((λ h. cc), (λ h. cc))
        | inr (old, found) ↦ rw found (elim (Bool-cases (old == k)) [
          | inl same ↦ rw same ((λ h. cc), (λ h. cc))
          | inr other ↦ rw other ((λ h. refl), (λ h. refl))
        ])
      ]
