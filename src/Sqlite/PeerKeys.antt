-- ===== src/Sqlite/PeerKeys.antt =====
-- The stores of identities in memory_storage.rs and in sqlite_storage.rs, side by side.
use radix_relay.Prelude.{
  ℕ, ◌≡◌, refl, ap, ◌∙◌, sym, inl, inr, true, none, some, List, [], ◌∷◌, Eq, ◌==◌, Bool-cases,
}
use radix_relay.Prelude.Assoc.{lookup}
use radix_relay.Prelude.Decimal.{codes_eq, list_eqb_iff}
use radix_relay.Exec.{ok}
use radix_relay.Memory.Address.{ProtocolAddress, address_eq}
use radix_relay.Memory.Identities.{MemoryIdentityStore, IdentityChange, Direction}
use radix_relay.Memory.Identities as MemoryIdentities
use radix_relay.Sqlite.{Codec, IsCodec}
use radix_relay.Sqlite.Identities.{SqliteIdentityStore, IdentityKeyApi}
use radix_relay.Sqlite.Identities as SqliteIdentities
use radix_relay.Sqlite.Peers.{
  AllAlike, nil-AllAlike, insert-AllAlike, erase-AllAlike, PeerCall, put_call, drop_call,
  drop_all_call,
}

module _ {IdentityKey IdentityKeyPair : Type 0} ⦃e : Eq IdentityKey⦄ where
  abbrev call_memory_peer :
      PeerCall IdentityKey
      → MemoryIdentityStore IdentityKey IdentityKeyPair
      → MemoryIdentityStore IdentityKey IdentityKeyPair
  call_memory_peer (put_call a k) s = (MemoryIdentities.save_identity a k s).1
  call_memory_peer (drop_call a) s = (MemoryIdentities.delete_identity a s).1
  call_memory_peer drop_all_call s = (MemoryIdentities.clear_all_identities s).1

  abbrev pub memory_identities :
      List (PeerCall IdentityKey)
      → MemoryIdentityStore IdentityKey IdentityKeyPair
      → MemoryIdentityStore IdentityKey IdentityKeyPair
  memory_identities [] s = s
  memory_identities (c ∷ cs) s = memory_identities cs (call_memory_peer c s)

module _ (P : IdentityKeyApi) where
  abbrev pub key_codec : Codec P.IdentityKey
  key_codec = record { serialize = λ k. some (P.serialize_key k); deserialize = P.decode_key }

  abbrev call_sqlite_peer : PeerCall P.IdentityKey → SqliteIdentityStore → SqliteIdentityStore
  call_sqlite_peer (put_call a k) s = (SqliteIdentities.save_identity P a k s).1
  call_sqlite_peer (drop_call a) s = (SqliteIdentities.delete_identity a s).1
  call_sqlite_peer drop_all_call s = (SqliteIdentities.clear_all_identities s).1

  abbrev pub sqlite_identities :
      List (PeerCall P.IdentityKey) → SqliteIdentityStore → SqliteIdentityStore
  sqlite_identities [] s = s
  sqlite_identities (c ∷ cs) s = sqlite_identities cs (call_sqlite_peer c s)

  decoded-eq : IsCodec key_codec → (k : P.IdentityKey) → P.decode_key (P.serialize_key k) ≡ some k
  decoded-eq inverse k = inverse k (P.serialize_key k) refl

module _ (P : IdentityKeyApi) ⦃e : Eq P.IdentityKey⦄ where
  -- Comparing keys is comparing what they are serialized to.
  serialize-eq :
      IsCodec (key_codec P)
      → (k q : P.IdentityKey) → (P.serialize_key k == P.serialize_key q) ≡ (k == q)
  serialize-eq inverse k q = elim (Bool-cases (k == q)) [
    | inl same ↦
        let f : P.serialize_key k ≡ P.serialize_key q =
          ap P.serialize_key ((e.is_equal_iff k q).0 same) in
        (list_eqb_iff (P.serialize_key k) (P.serialize_key q)).1 f ∙ sym same
    | inr other ↦ elim (Bool-cases (P.serialize_key k == P.serialize_key q)) [
      | inl same ↦
          let f : P.serialize_key k ≡ P.serialize_key q =
            (list_eqb_iff (P.serialize_key k) (P.serialize_key q)).0 same in
          let g : some k ≡ some q =
            sym (decoded-eq P inverse k) ∙ ap P.decode_key f ∙ decoded-eq P inverse q in
          let h : k ≡ q = cc in let i : (k == q) ≡ true = (e.is_equal_iff k q).1 h in absurd cc
      | inr other' ↦ other' ∙ sym other
    ]
  ]

  identities-alike :
      (cs : List (PeerCall P.IdentityKey)) (s : SqliteIdentityStore)
      (m : MemoryIdentityStore P.IdentityKey P.IdentityKeyPair)
      → AllAlike (key_codec P) s.identity_keys m.identity_keys
      → AllAlike
          (key_codec P)
          (sqlite_identities P cs s).identity_keys
          (memory_identities cs m).identity_keys
  unfolding SqliteIdentities.save_identity SqliteIdentities.delete_identity
      SqliteIdentities.clear_all_identities MemoryIdentities.save_identity
      MemoryIdentities.delete_identity MemoryIdentities.clear_all_identities
  identities-alike [] s m h = h
  identities-alike (put_call a k ∷ cs) s m h =
      identities-alike cs (SqliteIdentities.save_identity P a k s).1
        (MemoryIdentities.save_identity a k m).1
        (insert-AllAlike (key_codec P) a k (P.serialize_key k) refl s.identity_keys m.identity_keys
          h)
  identities-alike (drop_call a ∷ cs) s m h =
      identities-alike cs (SqliteIdentities.delete_identity a s).1
        (MemoryIdentities.delete_identity a m).1
        (erase-AllAlike (key_codec P) a s.identity_keys m.identity_keys h)
  identities-alike (drop_all_call ∷ cs) s m h =
      identities-alike cs (SqliteIdentities.clear_all_identities s).1
        (MemoryIdentities.clear_all_identities m).1 (nil-AllAlike (key_codec P))

  is_trusted_identity-none :
      (s : SqliteIdentityStore) (a : ProtocolAddress) (k : P.IdentityKey) (d : Direction)
      → lookup a s.identity_keys ≡ none
      → SqliteIdentities.is_trusted_identity P s a k d ≡ ok true
  unfolding SqliteIdentities.is_trusted_identity SqliteIdentities.get_identity
  is_trusted_identity-none s a k d p = rw p

  get_identity-some :
      (s : SqliteIdentityStore) (a : ProtocolAddress) {b : List ℕ} {q : P.IdentityKey}
      → lookup a s.identity_keys ≡ some b
      → P.decode_key b ≡ some q
      → SqliteIdentities.get_identity P s a ≡ ok (some q)
  unfolding SqliteIdentities.get_identity
  get_identity-some s a p f = rw p (rw f)

  is_trusted_identity-some :
      (s : SqliteIdentityStore) (a : ProtocolAddress) (k : P.IdentityKey) (d : Direction)
      {b : List ℕ} {q : P.IdentityKey}
      → lookup a s.identity_keys ≡ some b
      → P.decode_key b ≡ some q
      → SqliteIdentities.is_trusted_identity P s a k d ≡ ok (q == k)
  unfolding SqliteIdentities.is_trusted_identity
  is_trusted_identity-some s a k d p f = rw (get_identity-some s a p f)

  -- If keys that were serialized are read back, the two stores of identities, started empty, agree
  -- after any sequence of keys saved, deleted and cleared: they trust the same keys for every
  -- address, and saving a key reports the same change.
  pub identity_stores-agree :
      (cs : List (PeerCall P.IdentityKey)) (s : SqliteIdentityStore)
      (m : MemoryIdentityStore P.IdentityKey P.IdentityKeyPair) (a : ProtocolAddress)
      (k : P.IdentityKey) (d : Direction)
      → IsCodec (key_codec P)
      → s.identity_keys ≡ []
      → m.identity_keys ≡ []
      → let t = sqlite_identities P cs s in
        let n = memory_identities cs m in
        (SqliteIdentities.is_trusted_identity P t a k d
          ≡ MemoryIdentities.is_trusted_identity n a k d)
        × ((SqliteIdentities.save_identity P a k t).0 ≡ (MemoryIdentities.save_identity a k n).0)
  unfolding MemoryIdentities.is_trusted_identity SqliteIdentities.save_identity
      MemoryIdentities.save_identity MemoryIdentities.get_identity
  identity_stores-agree cs s m a k d inverse f g =
      let t = sqlite_identities P cs s in
      let n = memory_identities cs m in
      elim (identities-alike cs s m (rw (f, g) (nil-AllAlike (key_codec P))) a) [
        | inl (p, q) ↦ (rw q (is_trusted_identity-none t a k d p), rw (p, q))
        | inr (b, o, p, q, h) ↦
            let h' : P.serialize_key o ≡ b = cc in
            (
              rw q (is_trusted_identity-some t a k d p (inverse o b h)),
              rw (p, q, ← h', serialize-eq inverse o k)
                  (elim (Bool-cases (o == k)) [ inl same ↦ rw same | inr other ↦ rw other ]),
            )
      ]
