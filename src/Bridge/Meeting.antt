-- ===== src/Bridge/Meeting.antt =====
-- What adding a contact with its bundle leaves.
use radix_relay.Prelude.{ℕ, ◌≡◌, refl, ap, true, false, Option, some, List, String, Eq, ◌==◌}
use radix_relay.Exec.{Outcome, ok, err, invalid_input}
use radix_relay.Database.{Database}
use radix_relay.NostrIdentity.{IdentityApi, derive_public_key_from_peer_identity}
use radix_relay.StorageTrait.{StorageContainer}
use radix_relay.Contacts.{add_contact_from_bundle, generate_identity_fingerprint_from_key}
use radix_relay.Contacts.Adding.{IsContactTable, IsAdded, replace_contact-IsAdded}
use radix_relay.Bridge.Messages.{SignalBridge}
use radix_relay.Bridge.Bundles.{BundleApi, SerializablePreKeyBundle, establish_session}
use radix_relay.Bridge.Peering.{
  identity_bytes, contact_and_session, add_contact_and_establish_session,
}

module _ (I : IdentityApi) where
  pub add_contact_from_bundle-IsAdded :
      (identity_of : List ℕ → Option (List ℕ)) (now : ℕ) (bytes : List ℕ) (a : Option String)
      (s : Database) {key_bytes : List ℕ} {k : I.IdentityKey} {pk : I.PublicKey}
      → identity_of bytes ≡ some key_bytes
      → I.decode key_bytes ≡ some k
      → derive_public_key_from_peer_identity I k ≡ ok pk
      → IsContactTable s.contacts
      → let (r, s') = add_contact_from_bundle I identity_of now bytes a s in
        let fp = generate_identity_fingerprint_from_key I k in
        (r ≡ ok fp) × IsAdded fp (I.to_hex pk) now s.contacts s'.contacts
  unfolding add_contact_from_bundle
  add_contact_from_bundle-IsAdded identity_of now bytes a s there decoded derived table =
      rw (there, add_contact_from_bundle)
        (rw decoded (rw derived (refl, replace_contact-IsAdded _ now s refl refl table)))

module _ {C : StorageContainer} (I : IdentityApi) (P : BundleApi C)
    (get_own_key : C.Identities → Outcome I.IdentityKey) ⦃e : Eq I.IdentityKey⦄ where
  contact_and_session-IsAdded :
      (bytes : List ℕ) (a : Option String) (now : ℕ) (s : SignalBridge C)
      {b : SerializablePreKeyBundle} {k : I.IdentityKey} {pk : I.PublicKey}
      → let fp = generate_identity_fingerprint_from_key I k in
        P.from_bytes bytes ≡ some b
        → I.decode b.identity_key ≡ some k
        → derive_public_key_from_peer_identity I k ≡ ok pk
        → IsContactTable s.database.contacts
        → (establish_session P fp bytes s.storage).0 ≡ ok tt
        → let (r, s') = contact_and_session I P get_own_key bytes a now s in
          (r ≡ ok fp)
          × IsAdded fp (I.to_hex pk) now s.database.contacts s'.database.contacts
          × (s'.storage ≡ (establish_session P fp bytes s.storage).1)
  contact_and_session-IsAdded bytes a now s {b = b} there decoded derived table established =
      let (added, is_added) =
        add_contact_from_bundle-IsAdded I (λ x. identity_bytes (P.from_bytes x)) now bytes a
          s.database {key_bytes = b.identity_key} (ap identity_bytes there) decoded derived table in
      rw (added, established) (refl, is_added, refl)

  -- A bundle of the own identity is refused, and nothing changes.
  pub add_contact_and_establish_session-own :
      (bytes : List ℕ) (a : Option String) (now : ℕ) (s : SignalBridge C)
      {b : SerializablePreKeyBundle} {k own : I.IdentityKey}
      → P.from_bytes bytes ≡ some b
      → I.decode b.identity_key ≡ some k
      → get_own_key s.storage.identity_store ≡ ok own
      → (k == own) ≡ true
      → add_contact_and_establish_session I P get_own_key bytes a now s ≡ (err invalid_input, s)
  unfolding add_contact_and_establish_session
  add_contact_and_establish_session-own bytes a now s there decoded ours same =
      rw (there, decoded, ours, same)

  -- A readable bundle of another identity, from whose key a Nostr key can be derived, adds its owner
  -- to a table of unique contacts and, if libsignal establishes it, a session with the first device
  -- of the owner's fingerprint, which is returned.
  pub add_contact_and_establish_session-IsAdded :
      (bytes : List ℕ) (a : Option String) (now : ℕ) (s : SignalBridge C)
      (b : SerializablePreKeyBundle) (k own : I.IdentityKey) (pk : I.PublicKey)
      → let fp = generate_identity_fingerprint_from_key I k in
        P.from_bytes bytes ≡ some b
        → I.decode b.identity_key ≡ some k
        → get_own_key s.storage.identity_store ≡ ok own
        → (k == own) ≡ false
        → derive_public_key_from_peer_identity I k ≡ ok pk
        → IsContactTable s.database.contacts
        → (establish_session P fp bytes s.storage).0 ≡ ok tt
        → let (r, s') = add_contact_and_establish_session I P get_own_key bytes a now s in
          (r ≡ ok fp)
          × IsAdded fp (I.to_hex pk) now s.database.contacts s'.database.contacts
          × (s'.storage ≡ (establish_session P fp bytes s.storage).1)
  unfolding add_contact_and_establish_session
  add_contact_and_establish_session-IsAdded bytes a now s b k own pk there decoded ours other
        derived table established =
      rw (there, decoded, ours, other)
        (contact_and_session-IsAdded bytes a now s {b = b} {k = k} {pk = pk} there decoded derived
          table established)
