-- ===== src/Bridge/Restart.antt =====
-- A second start of the bridge on what the first has left.
use radix_relay.Prelude.{
  ℕ, ◌≤◌, ◌<◌, ◌≡◌, refl, ap, ◌∙◌, sym, ◌⊎◌, Bool, false, none, ltb, ◌==◌, nat_eq, arith,
}
use radix_relay.Exec.{Outcome, ok, err, panic}
use radix_relay.StorageTrait.{StorageContainer, StorageContainerLaws, Storage}
use radix_relay.StorageTrait.Peers.{PeerOps}
use radix_relay.Keys.{KeyApi, KeyApiLaws, generate_identity_key_pair}
use radix_relay.Bridge.{
  IdentityStore, make_identity, identity_or_new, ensure_identity, ensure_pre_keys,
  ensure_signed_pre_key, ensure_kyber_pre_key, ensure_keys_exist,
}
use radix_relay.Bridge.Startup.{ensure_keys_exist-ready}
use radix_relay.Bridge.Reset.{LocalLaws}
use radix_relay.Bridge.Untouched.{ensure_keys_exist-peers}

module _ {C : StorageContainer} {K : KeyApi C} {I : IdentityStore C K} {P : PeerOps C.Identities}
    (LL : LocalLaws I P) where
  make_identity-eq :
      (rng : ℕ → K.Rng) (s : C.Identities)
      → let new = (K.generate_identity (rng 0)).0 in
        make_identity K I rng s ≡ (
          ok new,
          (I.set_local_registration_id
              (K.random_u32 (rng 1))
              (I.set_local_identity_key_pair new s).1).1,
        )
  unfolding generate_identity_key_pair
  make_identity-eq rng s =
      let new = (K.generate_identity (rng 0)).0 in
      rw (
        LL.set_pair-ok new s,
        LL.set_registration-ok (K.random_u32 (rng 1)) (I.set_local_identity_key_pair new s).1,
      )

  identity_or_new-kept :
      (r : Outcome K.IdentityKeyPair) (rng : ℕ → K.Rng) (s : C.Identities)
      {pair : K.IdentityKeyPair}
      → I.get_identity_key_pair s ≡ r
      → (identity_or_new K I r rng s).0 ≡ ok pair
      → I.get_identity_key_pair (identity_or_new K I r rng s).1 ≡ ok pair
  unfolding generate_identity_key_pair
  identity_or_new-kept (ok p) rng s e h = e ∙ h
  identity_or_new-kept panic rng s e h = absurd cc
  identity_or_new-kept (err x) rng s {pair} e h =
      let new = (K.generate_identity (rng 0)).0 in
      let n = K.random_u32 (rng 1) in
      let made = make_identity-eq rng s in
      ap (λ y. I.get_identity_key_pair y.1) made
      ∙ LL.pair-set new n s
      ∙ ap (λ y. y.0) (sym made)
      ∙ h

  pub ensure_identity-kept :
      (rng : ℕ → K.Rng) (s : C.Identities) {pair : K.IdentityKeyPair}
      → (ensure_identity K I rng s).0 ≡ ok pair
      → I.get_identity_key_pair (ensure_identity K I rng s).1 ≡ ok pair
  unfolding ensure_identity
  ensure_identity-kept rng s h = identity_or_new-kept (I.get_identity_key_pair s) rng s refl h

module _ (checks : Bool) {C : StorageContainer} (K : KeyApi C) (I : IdentityStore C K) where
  -- With its keys there, nothing is made.
  ensure_keys_exist-idle :
      (rng : ℕ → K.Rng) (now : ℕ) (s : Storage C) {pair : K.IdentityKeyPair}
      → I.get_identity_key_pair s.identity_store ≡ ok pair
      → 5 ≤ C.pre_keys.count s.pre_key_store
      → 0 < C.signed_pre_keys.count s.signed_pre_key_store
      → 0 < C.kyber_pre_keys.count s.kyber_pre_key_store
      → ensure_keys_exist checks K I rng now s ≡ (ok pair, s)
  unfolding ensure_keys_exist ensure_identity ensure_pre_keys ensure_signed_pre_key
      ensure_kyber_pre_key
  ensure_keys_exist-idle rng now s there many signed kyber =
      let a : ltb (C.pre_keys.count s.pre_key_store) 5 ≡ false = ground (arith, many) in
      let b : (C.signed_pre_keys.count s.signed_pre_key_store == 0) ≡ false =
        ground (arith, signed) in
      let c : (C.kyber_pre_keys.count s.kyber_pre_key_store == 0) ≡ false = ground (arith, kyber) in
      rw (there, a, b, c)

module _ (checks : Bool) {C : StorageContainer} (L : StorageContainerLaws C) (K : KeyApi C)
    (A : KeyApiLaws C L K) (I : IdentityStore C K) (P : PeerOps C.Identities)
    (LL : LocalLaws I P) where
  -- Where the identity key is there or is made, and signs, and the store of pre-keys of a well-formed
  -- storage is empty or holds at least five keys, a second start, at whatever time and with whatever
  -- random numbers, returns the identity key of the first and changes nothing.
  pub ensure_keys_exist-again :
      (rng later : ℕ → K.Rng) (now later_now : ℕ) (s : Storage C) {pair : K.IdentityKeyPair}
      {g h : K.Signature}
      → (ensure_identity K I rng s.identity_store).0 ≡ ok pair
      → L.pre_key_laws.Valid s.pre_key_store
      → L.signed_pre_key_laws.laws.Valid s.signed_pre_key_store
      → L.kyber_pre_key_laws.laws.Valid s.kyber_pre_key_store
      → (5 ≤ C.pre_keys.count s.pre_key_store)
        ⊎ ((j : ℕ) → L.pre_key_laws.find s.pre_key_store j ≡ none)
      → (K.calculate_signature pair (K.generate (rng 3)).0 (K.generate (rng 3)).1).0 ≡ ok g
      → (K.calculate_kem_signature pair (K.generate_kem (rng 4)).0 (K.generate_kem (rng 4)).1).0
        ≡ ok h
      → let (r, s') = ensure_keys_exist checks K I rng now s in
        (r ≡ ok pair) × (ensure_keys_exist checks K I later later_now s' ≡ (ok pair, s'))
  ensure_keys_exist-again rng later now later_now s {pair} {g} {h} identity v w x start signed
        kem_signed =
      let (r, v0, v1, v2, n0, n1, n2) =
        ensure_keys_exist-ready checks L K A I rng now s {pair = pair} {g = g} {h = h} identity v w
          x start signed kem_signed in
      let s' = (ensure_keys_exist checks K I rng now s).1 in
      let (sessions, identities) = ensure_keys_exist-peers checks K I rng now s in
      let there =
        ap I.get_identity_key_pair identities
        ∙ ensure_identity-kept LL rng s.identity_store identity in
      (r, ensure_keys_exist-idle checks K I later later_now s' there n0 n1 n2)
