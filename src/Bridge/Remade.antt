-- ===== src/Bridge/Remade.antt =====
-- What `ensure_keys_exist` of lib.rs makes in stores that are empty.
use radix_relay.Prelude.{
  ℕ, zero, suc, ◌≤◌, ◌<◌, ◌≡◌, refl, ◌∙◌, sym, inl, inr, Option, none, some, List, [], ◌∷◌, ltb,
  ◌==◌, nat_eq, if◌then◌else◌, Bool, true, Bool-cases, arith,
}
use radix_relay.Exec.{ok}
use radix_relay.StorageTrait.{StorageContainer, StorageContainerLaws, Storage}
use radix_relay.Keys.{KeyApi, KeyApiLaws, generate_signed_pre_key}
use radix_relay.KeyRotation.{save_pre_keys}
use radix_relay.KeyRotation.Replenish.{drawn, generate_pre_keys-eq-drawn, save_pre_keys-drawn}
use radix_relay.Bridge.{
  IdentityStore, ensure_identity, ensure_pre_keys, ensure_signed_pre_key, ensure_kyber_pre_key,
  ensure_keys_exist,
}
use radix_relay.Bridge.Startup.{
  ensure_pre_keys-ready, ensure_signed_pre_key-ready, ensure_kyber_pre_key-ready,
}

module _ {C : StorageContainer} (K : KeyApi C) where
  -- The record of the first pair that was drawn for an id.
  abbrev pub record_of : List (ℕ × K.KeyPair) → ℕ → Option C.pre_keys.KeyRecord
  record_of [] j = none
  record_of ((i, p) ∷ pairs) j = if i == j then some (K.new_pre_key i p) else record_of pairs j

  record_of-drawn : (a n : ℕ) (rng : K.Rng) (j : ℕ) → j < a → record_of (drawn K a n rng) j ≡ none
  record_of-drawn a zero rng j h = refl
  record_of-drawn a (suc n) rng j h = ground (arith, record_of-drawn (suc a) n (K.generate rng).1 j)

module _ {C : StorageContainer} (L : StorageContainerLaws C) (K : KeyApi C)
    (A : KeyApiLaws C L K) where
  save_pre_keys-record_of :
      (a n : ℕ) (rng : K.Rng) (s : C.pre_keys.Store)
      → L.pre_key_laws.Valid s
      → ((j : ℕ) → a ≤ j → L.pre_key_laws.find s j ≡ none)
      → (j : ℕ) → a ≤ j
      → L.pre_key_laws.find (save_pre_keys K (drawn K a n rng) s).1 j
        ≡ record_of K (drawn K a n rng) j
  unfolding save_pre_keys
  save_pre_keys-record_of a zero rng s v free j h = free j h
  save_pre_keys-record_of a (suc n) rng s v free j h =
      let laws = L.pre_key_laws in
      let k = K.new_pre_key a (K.generate rng).0 in
      let fits = A.pre_key-Fits a (K.generate rng).0 in
      let s1 = (C.pre_keys.save a k s).1 in
      let v1 : laws.Valid s1 = laws.save-Valid a k s v fits in
      let free1 : (i : ℕ) → suc a ≤ i → laws.find s1 i ≡ none =
        λ i g. ground (arith, laws.find-save a k s i v fits, free i) in
      let (done, batch) = save_pre_keys-drawn L K A (suc a) n (K.generate rng).1 s1 v1 free1 in
      let rest = save_pre_keys-record_of (suc a) n (K.generate rng).1 s1 v1 free1 j in
      rw (laws.save-ok a k s v fits)
        (ground (arith, rest, batch.below j, laws.find-save a k s j v fits))

module _ {C : StorageContainer} (L : StorageContainerLaws C) (K : KeyApi C) where
  -- The key stores are well-formed and empty.
  pub record IsEmptied (s : Storage C) : Type 0 where
    pub pre_keys-Valid : L.pre_key_laws.Valid s.pre_key_store
    pub signed-Valid : L.signed_pre_key_laws.laws.Valid s.signed_pre_key_store
    pub kyber-Valid : L.kyber_pre_key_laws.laws.Valid s.kyber_pre_key_store
    pub no_pre_keys : C.pre_keys.count s.pre_key_store ≡ 0
    pub no_signed : C.signed_pre_keys.count s.signed_pre_key_store ≡ 0
    pub no_kyber : C.kyber_pre_keys.count s.kyber_pre_key_store ≡ 0
    pub pre_keys_gone : (j : ℕ) → L.pre_key_laws.find s.pre_key_store j ≡ none
    pub signed_gone : (j : ℕ) → L.signed_pre_key_laws.laws.find s.signed_pre_key_store j ≡ none
    pub kyber_gone : (j : ℕ) → L.kyber_pre_key_laws.laws.find s.kyber_pre_key_store j ≡ none

  -- The stores hold what is drawn in a start and nothing else.
  abbrev pub IsRemade : (ℕ → K.Rng) → ℕ → K.Signature → K.Signature → Storage C → Type 0
  IsRemade rng now g h s =
      ((j : ℕ) → L.pre_key_laws.find s.pre_key_store j ≡ record_of K (drawn K 1 100 (rng 2)) j)
      × ((j : ℕ)
          → L.signed_pre_key_laws.laws.find s.signed_pre_key_store j
            ≡ (if 1 == j then some (K.new_signed_pre_key 1 now (K.generate (rng 3)).0 g) else none))
      × ((j : ℕ)
          → L.kyber_pre_key_laws.laws.find s.kyber_pre_key_store j ≡ (
              if 1 == j
              then some (K.new_kyber_pre_key 1 now (K.generate_kem (rng 4)).0 h)
              else none))

module _ (checks : Bool) {C : StorageContainer} (L : StorageContainerLaws C) (K : KeyApi C)
    (A : KeyApiLaws C L K) where
  ensure_pre_keys-remade :
      (rng : K.Rng) (s : C.pre_keys.Store)
      → L.pre_key_laws.Valid s
      → C.pre_keys.count s ≡ 0
      → ((j : ℕ) → L.pre_key_laws.find s j ≡ none)
      → (j : ℕ)
      → L.pre_key_laws.find (ensure_pre_keys checks K rng s).1 j ≡ record_of K (drawn K 1 100 rng) j
  unfolding ensure_pre_keys
  ensure_pre_keys-remade rng s v e free j =
      let few : ltb (C.pre_keys.count s) 5 ≡ true = ground arith in
      let (done, batch) = save_pre_keys-drawn L K A 1 100 rng s v (λ i h. free i) in
      rw (few, generate_pre_keys-eq-drawn checks K 1 100 rng (omega arith))
        (elim (Bool-cases (ltb j 1)) [
          | inl low ↦
              batch.below j (ground arith)
              ∙ free j
              ∙ sym (record_of-drawn K 1 100 rng j (ground arith))
          | inr high ↦ save_pre_keys-record_of L K A 1 100 rng s v (λ i h. free i) j (ground arith)
        ])

  ensure_signed_pre_key-remade :
      (pair : K.IdentityKeyPair) (rng : K.Rng) (now : ℕ) (s : C.signed_pre_keys.Store)
      {g : K.Signature}
      → let laws = L.signed_pre_key_laws.laws in
        laws.Valid s
        → C.signed_pre_keys.count s ≡ 0
        → ((j : ℕ) → laws.find s j ≡ none)
        → (K.calculate_signature pair (K.generate rng).0 (K.generate rng).1).0 ≡ ok g
        → (j : ℕ)
        → laws.find (ensure_signed_pre_key K pair rng now s).1 j
          ≡ (if 1 == j then some (K.new_signed_pre_key 1 now (K.generate rng).0 g) else none)
  unfolding ensure_signed_pre_key generate_signed_pre_key
  ensure_signed_pre_key-remade pair rng now s {g} v e free signed j =
      let laws = L.signed_pre_key_laws.laws in
      let empty : (C.signed_pre_keys.count s == 0) ≡ true = ground arith in
      let fits = A.signed_pre_key-Fits 1 now (K.generate rng).0 g in
      rw (empty, signed, A.signed_pre_key_id-new)
        (ground (arith, laws.find-save 1 _ s j v fits, free j))

  ensure_kyber_pre_key-remade :
      (pair : K.IdentityKeyPair) (rng : K.Rng) (now : ℕ) (s : C.kyber_pre_keys.Store)
      {g : K.Signature}
      → let laws = L.kyber_pre_key_laws.laws in
        laws.Valid s
        → C.kyber_pre_keys.count s ≡ 0
        → ((j : ℕ) → laws.find s j ≡ none)
        → (K.calculate_kem_signature pair (K.generate_kem rng).0 (K.generate_kem rng).1).0 ≡ ok g
        → (j : ℕ)
        → laws.find (ensure_kyber_pre_key K pair rng now s).1 j
          ≡ (if 1 == j then some (K.new_kyber_pre_key 1 now (K.generate_kem rng).0 g) else none)
  unfolding ensure_kyber_pre_key
  ensure_kyber_pre_key-remade pair rng now s {g} v e free signed j =
      let laws = L.kyber_pre_key_laws.laws in
      let empty : (C.kyber_pre_keys.count s == 0) ≡ true = ground arith in
      let fits = A.kyber_pre_key-Fits 1 now (K.generate_kem rng).0 g in
      rw (empty, signed) (ground (arith, laws.find-save 1 _ s j v fits, free j))

  pub ensure_keys_exist-IsRemade :
      (I : IdentityStore C K) (rng : ℕ → K.Rng) (now : ℕ) (s : Storage C) {pair : K.IdentityKeyPair}
      {g h : K.Signature}
      → (ensure_identity K I rng s.identity_store).0 ≡ ok pair
      → IsEmptied L K s
      → (K.calculate_signature pair (K.generate (rng 3)).0 (K.generate (rng 3)).1).0 ≡ ok g
      → (K.calculate_kem_signature pair (K.generate_kem (rng 4)).0 (K.generate_kem (rng 4)).1).0
        ≡ ok h
      → IsRemade L K rng now g h (ensure_keys_exist checks K I rng now s).1
  unfolding ensure_keys_exist
  ensure_keys_exist-IsRemade I rng now s {pair} {g} {h} identity e signed kem_signed =
      let a =
        ensure_pre_keys-ready checks L K A (rng 2) s.pre_key_store e.pre_keys-Valid
          (inr e.pre_keys_gone) in
      let b =
        ensure_signed_pre_key-ready checks L K A pair (rng 3) now s.signed_pre_key_store
          e.signed-Valid signed in
      let c =
        ensure_kyber_pre_key-ready checks L K A pair (rng 4) now s.kyber_pre_key_store e.kyber-Valid
          kem_signed in
      rw (identity, a.0, b.0, c.0)
        (
          ensure_pre_keys-remade (rng 2) s.pre_key_store e.pre_keys-Valid e.no_pre_keys
              e.pre_keys_gone,
          ensure_signed_pre_key-remade pair (rng 3) now s.signed_pre_key_store e.signed-Valid
              e.no_signed e.signed_gone signed,
          ensure_kyber_pre_key-remade pair (rng 4) now s.kyber_pre_key_store e.kyber-Valid
              e.no_kyber e.kyber_gone kem_signed,
        )
