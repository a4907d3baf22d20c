-- ===== src/Bridge/Soundness.antt =====
-- The tables of contacts and of the history under all the methods of the bridge that change them.
use radix_relay.Prelude.{
  ℕ, ◌<◌, ◌^◌, Bool, true, false, Option, none, some, List, [], ◌∷◌, String, ◌==◌, string_eq, Eq,
  if◌then◌else◌,
}
use radix_relay.Exec.{Exec, Outcome, ok, err, panic, continue, lift, reads, ◌>>=◌}
use radix_relay.NostrIdentity.{IdentityApi}
use radix_relay.StorageTrait.{StorageContainer}
use radix_relay.StorageTrait.Peers.{SessionOps}
use radix_relay.History.{store_incoming_message, store_outgoing_message}
use radix_relay.Contacts as Contacts
use radix_relay.Contacts.Soundness.{
  IsSound, add_contact_from_identity_key-IsSound, add_contact_from_bundle-IsSound,
  store_incoming-IsSound, store_outgoing-IsSound,
}
use radix_relay.Bridge.Sessions.{first_device}
use radix_relay.Bridge.Bundles.{BundleApi, or_protocol, establish_session}
use radix_relay.Bridge.Peering.{
  identity_bytes, or_invalid_input, or_storage, add_contact_and_establish_session,
}
use radix_relay.Bridge.Messages.{
  SignalBridge, CipherApi, on_storage, on_database, or_warn, contact_of, contact_found,
  fingerprint_or, has_session, encrypt_message, record_incoming, add_unless, decrypt_first,
  decrypt_next, decrypt_parsed, decrypt_message,
}

module _ {C : StorageContainer} where
  -- Whatever the result, sound tables stay sound.
  abbrev pub Keeps : {A : Type 0} → Exec (SignalBridge C) A → Type 0
  Keeps m = (s : SignalBridge C) → IsSound s.database → IsSound (m s).1.database

  continue-Keeps :
      {A B : Type 0} (r : Outcome A) (f : A → Exec (SignalBridge C) B) (s : SignalBridge C)
      → ((a : A) → Keeps (f a))
      → IsSound s.database
      → IsSound (continue r f s).1.database
  continue-Keeps (ok a) f s kf v = kf a s v
  continue-Keeps (err e) f s kf v = v
  continue-Keeps panic f s kf v = v

  if-Keeps :
      {A : Type 0} (b : Bool) (m n : Exec (SignalBridge C) A)
      → Keeps m
      → Keeps n
      → Keeps (if b then m else n)
  if-Keeps true m n km kn = km
  if-Keeps false m n km kn = kn

  pub bind-Keeps :
      {A B : Type 0} (m : Exec (SignalBridge C) A) (f : A → Exec (SignalBridge C) B)
      → Keeps m
      → ((a : A) → Keeps (f a))
      → Keeps (m >>= f)
  bind-Keeps m f km kf s v = let (r, t) = m s in continue-Keeps r f t kf (km s v)

module _ {C : StorageContainer} (I : IdentityApi) (S : SessionOps C.Sessions)
    (E : CipherApi C I) where
  has_session-Keeps : (session : Option S.SessionRecord) → Keeps (has_session I S E session)
  has_session-Keeps none s v = v
  has_session-Keeps (some session) s v = v

  pub encrypt_message-Keeps :
      (peer : String) (plaintext : List ℕ) (timestamp : ℕ)
      → timestamp < 2 ^ 64
      → Keeps (encrypt_message I S E peer plaintext timestamp)
  unfolding encrypt_message
  encrypt_message-Keeps peer plaintext ts fits =
      if-Keeps (peer == "") _ _ (λ s v. v)
        (bind-Keeps (reads (λ s. fingerprint_or (contact_of I S E s peer) peer)) _ (λ s v. v)
          (λ fp.
            bind-Keeps (reads (λ s. S.load_session s.storage.session_store (first_device fp))) _
              (λ s v. v)
              (λ session. bind-Keeps (has_session I S E session) _ (has_session-Keeps session) (λ _.
                bind-Keeps (on_storage (E.encrypt (first_device fp) plaintext)) _ (λ s v. v)
                  (λ c.
                    bind-Keeps (on_database (or_warn (store_outgoing_message fp ts plaintext))) _
                      (λ s v. store_outgoing-IsSound fp ts plaintext s.database fits v)
                      (λ _ s v. v))))))

  record_incoming-Keeps :
      (fp : String) (consumed : Bool) (plaintext : List ℕ) (timestamp : ℕ)
      → timestamp < 2 ^ 64
      → Keeps (record_incoming I S E fp consumed plaintext timestamp)
  record_incoming-Keeps fp k plaintext ts fits =
      bind-Keeps (on_database (or_warn (store_incoming_message fp ts plaintext k k))) _
        (λ s v. store_incoming-IsSound fp ts plaintext k k s.database fits v) (λ _ s v. v)

  add_unless-Keeps :
      (known : Bool) (now : ℕ) (k : I.IdentityKey) → Keeps (add_unless I S E known now k)
  add_unless-Keeps true now k = λ s v. v
  add_unless-Keeps false now k =
      bind-Keeps (on_database (Contacts.add_contact_from_identity_key I now k)) _
        (λ s v. add_contact_from_identity_key-IsSound I now k s.database v) (λ _ s v. v)

  decrypt_first-Keeps :
      (message : E.PreKeySignalMessage) (timestamp now : ℕ)
      → timestamp < 2 ^ 64
      → Keeps (decrypt_first I S E message timestamp now)
  unfolding decrypt_first
  decrypt_first-Keeps m ts now fits =
      let fp = Contacts.generate_identity_fingerprint_from_key I (E.identity_key m) in
      bind-Keeps (reads (λ s. contact_found (contact_of I S E s fp))) _ (λ s v. v)
        (λ known.
          bind-Keeps (add_unless I S E known now (E.identity_key m)) _
            (add_unless-Keeps known now (E.identity_key m))
            (λ _.
              bind-Keeps (on_storage (E.decrypt_pre_key (first_device fp) m)) _ (λ s v. v)
                (λ plaintext. record_incoming-Keeps fp _ plaintext ts fits)))

  decrypt_next-Keeps :
      (peer_hint : String) (message : E.SignalMessage) (timestamp : ℕ)
      → timestamp < 2 ^ 64
      → Keeps (decrypt_next I S E peer_hint message timestamp)
  decrypt_next-Keeps hint m ts fits =
      bind-Keeps (reads (λ s. contact_of I S E s hint)) _ (λ s v. v)
        (λ contact.
          bind-Keeps (on_storage (E.decrypt_signal (first_device contact.rdx_fingerprint) m)) _
            (λ s v. v)
            (λ plaintext. record_incoming-Keeps contact.rdx_fingerprint false plaintext ts fits))

  decrypt_parsed-Keeps :
      (first : Option E.PreKeySignalMessage) (next : Option E.SignalMessage) (peer_hint : String)
      (timestamp now : ℕ)
      → timestamp < 2 ^ 64
      → Keeps (decrypt_parsed I S E first next peer_hint timestamp now)
  unfolding decrypt_parsed
  decrypt_parsed-Keeps (some m) next hint ts now fits = decrypt_first-Keeps m ts now fits
  decrypt_parsed-Keeps none none hint ts now fits = λ s v. v
  decrypt_parsed-Keeps none (some m) hint ts now fits =
      if-Keeps (hint == "") _ _ (λ s v. v) (decrypt_next-Keeps hint m ts fits)

  pub decrypt_message-Keeps :
      (peer_hint : String) (bytes : List ℕ) (timestamp now : ℕ)
      → timestamp < 2 ^ 64
      → Keeps (decrypt_message I S E peer_hint bytes timestamp now)
  unfolding decrypt_message
  decrypt_message-Keeps hint [] ts now fits = λ s v. v
  decrypt_message-Keeps hint (b ∷ bytes) ts now fits =
      decrypt_parsed-Keeps (E.parse_pre_key (b ∷ bytes)) (E.parse_signal (b ∷ bytes)) hint ts now
        fits

module _ {C : StorageContainer} (I : IdentityApi) (P : BundleApi C) where
  pub add_bundle-Keeps :
      (bytes : List ℕ) (user_alias : Option String) (now : ℕ)
      → Keeps {C = C} (
          on_database (
            Contacts.add_contact_from_bundle I
              (λ b. identity_bytes (P.from_bytes b))
              now
              bytes
              user_alias))
  add_bundle-Keeps bytes user_alias now s v =
      add_contact_from_bundle-IsSound I (λ b. identity_bytes (P.from_bytes b)) now bytes user_alias
        s.database v

  pub add_contact_and_establish_session-Keeps :
      (get_own_key : C.Identities → Outcome I.IdentityKey) ⦃e : Eq I.IdentityKey⦄ (bytes : List ℕ)
      (user_alias : Option String) (now : ℕ)
      → Keeps (add_contact_and_establish_session I P get_own_key bytes user_alias now)
  unfolding add_contact_and_establish_session
  add_contact_and_establish_session-Keeps get_own_key bytes user_alias now =
      bind-Keeps (lift (or_invalid_input (P.from_bytes bytes))) _ (λ s v. v)
        (λ bundle.
          bind-Keeps (lift (or_protocol (I.decode bundle.identity_key))) _ (λ s v. v)
            (λ key.
              bind-Keeps (reads (λ s. or_storage (get_own_key s.storage.identity_store))) _
                (λ s v. v)
                (λ own.
                  if-Keeps (key == own) _ _ (λ s v. v)
                    (bind-Keeps
                      (on_database (
                        Contacts.add_contact_from_bundle I (λ b. identity_bytes (P.from_bytes b))
                          now bytes user_alias))
                      _ (add_bundle-Keeps bytes user_alias now)
                      (λ rdx.
                        bind-Keeps (on_storage (establish_session P rdx bytes)) _ (λ s v. v)
                          (λ _ s v. v))))))
