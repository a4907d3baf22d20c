-- ===== src/Bridge/Startup.antt =====
-- What `ensure_keys_exist` of lib.rs leaves in the stores.
use radix_relay.Prelude.{
  ℕ, ◌≤◌, ◌<◌, ◌≡◌, refl, ◌⊎◌, inl, inr, Bool, none, ltb, ◌==◌, nat_eq, Bool-cases, Option-cases,
  arith,
}
use radix_relay.Exec.{ok}
use radix_relay.StorageTrait.{
  StorageContainer, StorageContainerLaws, Storage, KeyStore, KeyStoreLaws,
}
use radix_relay.Keys.{KeyApi, KeyApiLaws, generate_signed_pre_key}
use radix_relay.KeyRotation.Replenish.{generate_pre_keys-eq-drawn, save_pre_keys-drawn}
use radix_relay.Bridge.{
  IdentityStore, ensure_identity, ensure_pre_keys, ensure_signed_pre_key, ensure_kyber_pre_key,
  ensure_keys_exist,
}

-- A key saved in an empty store is there.
save-count :
    {T : KeyStore} (L : KeyStoreLaws T) (i : ℕ) (k : T.KeyRecord) (s : T.Store)
    → L.Valid s
    → L.Fits i k
    → T.count s ≡ 0
    → 0 < T.count (T.save i k s).1
save-count L i k s v fits empty = elim (Option-cases (L.find s i)) [
  | inl e ↦ ground (arith, L.count-save i k s v fits, e)
  | inr (r, e) ↦ absurd (ground (arith, L.count-found s i v e))
]

module _ (checks : Bool) {C : StorageContainer} (L : StorageContainerLaws C) (K : KeyApi C)
    (A : KeyApiLaws C L K) where
  pub ensure_pre_keys-ready :
      (rng : K.Rng) (s : C.pre_keys.Store)
      → L.pre_key_laws.Valid s
      → (5 ≤ C.pre_keys.count s) ⊎ ((j : ℕ) → L.pre_key_laws.find s j ≡ none)
      → let (r, s') = ensure_pre_keys checks K rng s in
        (r ≡ ok tt) × L.pre_key_laws.Valid s' × (5 ≤ C.pre_keys.count s')
  unfolding ensure_pre_keys
  ensure_pre_keys-ready rng s v start = elim (Bool-cases (ltb (C.pre_keys.count s) 5)) [
    | inr many ↦ rw many (refl, v, ground arith)
    | inl few ↦ elim start [
      | inl h ↦ absurd (ground arith)
      | inr free ↦
          let (done, batch) = save_pre_keys-drawn L K A 1 100 rng s v (λ j h. free j) in
          rw (few, generate_pre_keys-eq-drawn checks K 1 100 rng (omega arith))
            (done, batch.valid, omega (arith, batch.counted))
    ]
  ]

  pub ensure_signed_pre_key-ready :
      (pair : K.IdentityKeyPair) (rng : K.Rng) (now : ℕ) (s : C.signed_pre_keys.Store)
      {g : K.Signature}
      → let laws = L.signed_pre_key_laws.laws in
        laws.Valid s
        → (K.calculate_signature pair (K.generate rng).0 (K.generate rng).1).0 ≡ ok g
        → let (r, s') = ensure_signed_pre_key K pair rng now s in
          (r ≡ ok tt) × laws.Valid s' × (0 < C.signed_pre_keys.count s')
  unfolding ensure_signed_pre_key generate_signed_pre_key
  ensure_signed_pre_key-ready pair rng now s {g} v signed =
      let laws = L.signed_pre_key_laws.laws in
      let fits = A.signed_pre_key-Fits 1 now (K.generate rng).0 g in
      elim (Bool-cases (C.signed_pre_keys.count s == 0)) [
        | inr some_key ↦ rw some_key (refl, v, ground arith)
        | inl empty ↦
            rw (empty, signed, A.signed_pre_key_id-new)
              (
                laws.save-ok 1 _ s v fits,
                laws.save-Valid 1 _ s v fits,
                save-count laws 1 _ s v fits (ground arith),
              )
      ]

  pub ensure_kyber_pre_key-ready :
      (pair : K.IdentityKeyPair) (rng : K.Rng) (now : ℕ) (s : C.kyber_pre_keys.Store)
      {g : K.Signature}
      → let laws = L.kyber_pre_key_laws.laws in
        laws.Valid s
        → (K.calculate_kem_signature pair (K.generate_kem rng).0 (K.generate_kem rng).1).0 ≡ ok g
        → let (r, s') = ensure_kyber_pre_key K pair rng now s in
          (r ≡ ok tt) × laws.Valid s' × (0 < C.kyber_pre_keys.count s')
  unfolding ensure_kyber_pre_key
  ensure_kyber_pre_key-ready pair rng now s {g} v signed =
      let laws = L.kyber_pre_key_laws.laws in
      let fits = A.kyber_pre_key-Fits 1 now (K.generate_kem rng).0 g in
      elim (Bool-cases (C.kyber_pre_keys.count s == 0)) [
        | inr some_key ↦ rw some_key (refl, v, ground arith)
        | inl empty ↦
            rw (empty, signed)
              (
                laws.save-ok 1 _ s v fits,
                laws.save-Valid 1 _ s v fits,
                save-count laws 1 _ s v fits (ground arith),
              )
      ]

  -- If the identity key is there or is made, and signs, and the store of pre-keys is empty or holds at
  -- least five keys, then a well-formed storage is well-formed after `ensure_keys_exist`, which
  -- returns the identity key: it holds five pre-keys, a signed pre-key and a Kyber pre-key.
  pub ensure_keys_exist-ready :
      (I : IdentityStore C K) (rng : ℕ → K.Rng) (now : ℕ) (s : Storage C) {pair : K.IdentityKeyPair}
      {g h : K.Signature}
      → (ensure_identity K I rng s.identity_store).0 ≡ ok pair
      → L.pre_key_laws.Valid s.pre_key_store
      → L.signed_pre_key_laws.laws.Valid s.signed_pre_key_store
      → L.kyber_pre_key_laws.laws.Valid s.kyber_pre_key_store
      → (5 ≤ C.pre_keys.count s.pre_key_store)
        ⊎ ((j : ℕ) → L.pre_key_laws.find s.pre_key_store j ≡ none)
      → (K.calculate_signature pair (K.generate (rng 3)).0 (K.generate (rng 3)).1).0 ≡ ok g
      → (K.calculate_kem_signature pair (K.generate_kem (rng 4)).0 (K.generate_kem (rng 4)).1).0
        ≡ ok h
      → let (r, s') = ensure_keys_exist checks K I rng now s in
        (r ≡ ok pair)
        × L.pre_key_laws.Valid s'.pre_key_store
        × L.signed_pre_key_laws.laws.Valid s'.signed_pre_key_store
        × L.kyber_pre_key_laws.laws.Valid s'.kyber_pre_key_store
        × (5 ≤ C.pre_keys.count s'.pre_key_store)
        × (0 < C.signed_pre_keys.count s'.signed_pre_key_store)
        × (0 < C.kyber_pre_keys.count s'.kyber_pre_key_store)
  unfolding ensure_keys_exist
  ensure_keys_exist-ready I rng now s {pair} {g} {h} identity v w x start signed kem_signed =
      let (a, va, na) = ensure_pre_keys-ready (rng 2) s.pre_key_store v start in
      let (b, vb, nb) =
        ensure_signed_pre_key-ready pair (rng 3) now s.signed_pre_key_store w signed in
      let (c, vc, nc) =
        ensure_kyber_pre_key-ready pair (rng 4) now s.kyber_pre_key_store x kem_signed in
      rw (identity, a, b, c) (refl, va, vb, vc, na, nb, nc)
