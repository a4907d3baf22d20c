-- ===== src/Bridge/Sending.antt =====
-- What encrypting a message leaves alone, on every branch of `encrypt_message` in
-- rust/signal_bridge/src/lib.rs.
use radix_relay.Prelude.{
  ℕ, ◌≡◌, refl, ◌⊎◌, inl, inr, Option, none, some, List, String, ◌==◌, string_eq, Bool-cases, arith,
}
use radix_relay.Exec.{Outcome, ok, err, panic, continue, reads, pure, ◌>>=◌, ◌>>◌}
use radix_relay.Database.{Database}
use radix_relay.Memory.Address.{ProtocolAddress}
use radix_relay.NostrIdentity.{IdentityApi}
use radix_relay.StorageTrait.{StorageContainer, Storage}
use radix_relay.StorageTrait.Ops.{RatchetApi, SameKeys, on_peers, on_peers-SameKeys}
use radix_relay.Bridge.Ratchet.{WireApi, ratchet_cipher}
use radix_relay.StorageTrait.Peers.{SessionOps}
use radix_relay.History.{store_outgoing_message}
use radix_relay.Bridge.Sessions.{first_device}
use radix_relay.Bridge.Messages.{
  SignalBridge, CipherApi, or_warn, contact_of, fingerprint_or, encrypt_message, on_storage,
  on_database, has_session,
}

-- Storing a message does not panic, so a failure is a warning.
or_warn-outgoing :
    (fp : String) (timestamp : ℕ) (plaintext : List ℕ) (d : Database)
    → (or_warn (store_outgoing_message fp timestamp plaintext) d).0 ≡ ok tt
unfolding store_outgoing_message
or_warn-outgoing fp timestamp plaintext d = ground arith

module _ {C : StorageContainer} where
  -- The keys are the same, and the database is the same unless a ciphertext is returned.
  pub record KeepsKeys (s : SignalBridge C) (r : Outcome (List ℕ)) (s' : SignalBridge C)
      : Type 0 where
    pub kept_keys : SameKeys s.storage s'.storage
    pub kept_database : (s'.database ≡ s.database) ⊎ ((c : List ℕ) × (r ≡ ok c))

module _ {C : StorageContainer} (I : IdentityApi) (S : SessionOps C.Sessions)
    (E : CipherApi C I) where
  same : (t : Storage C) → SameKeys t t
  same t = record { same_pre_keys = refl; same_signed = refl; same_kyber = refl }

  -- The result of libsignal is either the ciphertext, which is then stored in the history, or it is
  -- returned as it is.
  sealed-KeepsKeys :
      (fp : String) (plaintext : List ℕ) (timestamp : ℕ) (s : SignalBridge C) (r : Outcome (List ℕ))
      (t : Storage C)
      → SameKeys s.storage t
      → let (q, s') =
          (do
            c ← on_storage (λ _. (r, t))
            on_database (or_warn (store_outgoing_message fp timestamp plaintext))
            pure c)
            s in
        KeepsKeys s q s'
  sealed-KeepsKeys fp plaintext timestamp s (err e) t fits = record {
    kept_keys = fits;
    kept_database = inl refl;
  }
  sealed-KeepsKeys fp plaintext timestamp s panic t fits = record {
    kept_keys = fits;
    kept_database = inl refl;
  }
  sealed-KeepsKeys fp plaintext timestamp s (ok c) t fits =
      rw (or_warn-outgoing fp timestamp plaintext s.database)
        (record { kept_keys = fits; kept_database = inr (c, refl) })

  module _
      (keeps : (address : ProtocolAddress) (text : List ℕ) (t : Storage C)
        → SameKeys t (E.encrypt address text t).1) where
    named-KeepsKeys :
        (plaintext : List ℕ) (timestamp : ℕ) (s : SignalBridge C) (fp : String)
        (session : Outcome (Option S.SessionRecord))
        → let (q, s') =
            (do
              found ← reads (λ _. session)
              has_session I S E found
              c ← on_storage (E.encrypt (first_device fp) plaintext)
              on_database (or_warn (store_outgoing_message fp timestamp plaintext))
              pure c)
              s in
          KeepsKeys s q s'
    named-KeepsKeys plaintext timestamp s fp (err e) = record {
      kept_keys = same s.storage;
      kept_database = inl refl;
    }
    named-KeepsKeys plaintext timestamp s fp panic = record {
      kept_keys = same s.storage;
      kept_database = inl refl;
    }
    named-KeepsKeys plaintext timestamp s fp (ok none) = record {
      kept_keys = same s.storage;
      kept_database = inl refl;
    }
    named-KeepsKeys plaintext timestamp s fp (ok (some session)) =
        let (r, t) = E.encrypt (first_device fp) plaintext s.storage in
        sealed-KeepsKeys fp plaintext timestamp s r t (keeps (first_device fp) plaintext s.storage)

    found-KeepsKeys :
        (plaintext : List ℕ) (timestamp : ℕ) (s : SignalBridge C) (fingerprint : Outcome String)
        → let (q, s') =
            (do
              fp ← reads (λ _. fingerprint)
              session ← reads (λ s. S.load_session s.storage.session_store (first_device fp))
              has_session I S E session
              c ← on_storage (E.encrypt (first_device fp) plaintext)
              on_database (or_warn (store_outgoing_message fp timestamp plaintext))
              pure c)
              s in
          KeepsKeys s q s'
    found-KeepsKeys plaintext timestamp s (err e) = record {
      kept_keys = same s.storage;
      kept_database = inl refl;
    }
    found-KeepsKeys plaintext timestamp s panic = record {
      kept_keys = same s.storage;
      kept_database = inl refl;
    }
    found-KeepsKeys plaintext timestamp s (ok fp) =
        named-KeepsKeys plaintext timestamp s fp
          (S.load_session s.storage.session_store (first_device fp))

    all-KeepsKeys :
        (peer : String) (plaintext : List ℕ) (timestamp : ℕ) (s : SignalBridge C)
        → let (r, s') = encrypt_message I S E peer plaintext timestamp s in KeepsKeys s r s'
    unfolding encrypt_message
    all-KeepsKeys peer plaintext timestamp s = elim (Bool-cases (peer == "")) [
      | inl e ↦ rw e (record { kept_keys = same s.storage; kept_database = inl refl })
      | inr e ↦
          rw e
            (found-KeepsKeys plaintext timestamp s (fingerprint_or (contact_of I S E s peer) peer))
    ]

module _ {C : StorageContainer} (R : RatchetApi C) {I : IdentityApi} (W : WireApi R I) (now : ℕ)
    (rng : R.Rng) where
  serialized-SameKeys :
      (s t : Storage C) (r : Outcome R.CiphertextMessage)
      → SameKeys s t
      → SameKeys s (continue r (λ c. pure (W.serialize c)) t).1
  serialized-SameKeys s t (ok c) fits = fits
  serialized-SameKeys s t (err e) fits = fits
  serialized-SameKeys s t panic fits = fits

  -- Over the encryption of `ExtendedStorageOps`, the pre-keys, the signed and the Kyber pre-keys are
  -- the same after `encrypt_message` as before it, on every branch, errors and panics included; and
  -- unless it returns a ciphertext the contacts and the history are the same too.
  pub encrypt_message-KeepsKeys :
      (S : SessionOps C.Sessions) (peer : String) (plaintext : List ℕ) (timestamp : ℕ)
      (s : SignalBridge C)
      → let (r, s') = encrypt_message I S (ratchet_cipher R W now rng) peer plaintext timestamp s in
        KeepsKeys s r s'
  unfolding ratchet_cipher
  encrypt_message-KeepsKeys S peer plaintext timestamp s =
      let E = ratchet_cipher R W now rng in
      all-KeepsKeys I S E
        (λ address text t.
          let m = R.message_encrypt text address now rng in
          let (r, u) = on_peers m t in serialized-SameKeys t u r (on_peers-SameKeys m t))
        peer plaintext timestamp s
