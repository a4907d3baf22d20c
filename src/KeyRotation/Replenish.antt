-- ===== src/KeyRotation/Replenish.antt =====
-- One-time pre-keys in keys.rs and key_rotation.rs: the batch that is drawn, how it is saved, and the
-- consumption of a key.
use radix_relay.Prelude.{
  ℕ, zero, suc, ◌+◌, ◌≤◌, ◌<◌, ◌≡◌, ◌≢◌, ◌∙◌, inl, inr, refl, ap, Bool, true, Option, none, some,
  List, [], ◌∷◌, ltb, nat_eq, is_some, Bool-cases, arith,
}
use radix_relay.Exec.{ok, add_u32, u32_mod}
use radix_relay.StorageTrait.{KeyStore, KeyStoreLaws, StorageContainer, StorageContainerLaws}
use radix_relay.Keys.{KeyApi, KeyApiLaws, generate_pre_keys, generate_pre_keys_from}
use radix_relay.KeyRotation.{
  unwrap_or, next_pre_key_id, save_pre_keys, replenish_store, consume_store, replenish_count,
  min_pre_key_count,
}
use radix_relay.KeyRotation.Next.{next-new}

-- `n` keys have been added under the ids from `a` on, above all others, and nothing else changed.
pub record AddsBatch {T : KeyStore} (L : KeyStoreLaws T) (s s' : T.Store) (a n : ℕ) : Type 0 where
  pub valid : L.Valid s'
  pub counted : T.count s' ≡ T.count s + n
  pub below : (j : ℕ) → j < a → L.find s' j ≡ L.find s j
  pub inside : (j : ℕ) → a ≤ j → j < a + n → is_some (L.find s' j) ≡ true
  pub above : (j : ℕ) → a + n ≤ j → L.find s' j ≡ none

module _ {C : StorageContainer} (K : KeyApi C) where
  -- The batch as a list, with the pairs in the order in which they are drawn.
  abbrev pub drawn : ℕ → ℕ → K.Rng → List (ℕ × K.KeyPair)
  drawn a zero rng = []
  drawn a (suc n) rng = (a, (K.generate rng).0) ∷ drawn (suc a) n (K.generate rng).1

module _ (checks : Bool) {C : StorageContainer} (K : KeyApi C) where
  generate_pre_keys_from-eq-drawn :
      (start i n : ℕ) (rng : K.Rng)
      → start + i + n ≤ u32_mod
      → (generate_pre_keys_from checks K start i n rng).0 ≡ ok (drawn K (start + i) n rng)
  unfolding generate_pre_keys_from add_u32
  generate_pre_keys_from-eq-drawn start i zero rng h = refl
  generate_pre_keys_from-eq-drawn start i (suc n) rng h =
      let fits : ltb (start + i) u32_mod ≡ true = ground arith in
      let step : start + suc i ≡ suc (start + i) = omega arith in
      let rest = generate_pre_keys_from-eq-drawn start (suc i) n (K.generate rng).1 (omega arith) in
      rw (fits, rest)
        (ap (λ (x : ℕ). ok ((start + i, (K.generate rng).0) ∷ drawn K x n (K.generate rng).1)) step)

  -- While the ids stay within 32 bits, the batch has the ids from `start_id` on.
  pub generate_pre_keys-eq-drawn :
      (start count : ℕ) (rng : K.Rng)
      → start + count ≤ u32_mod
      → (generate_pre_keys checks K start count rng).0 ≡ ok (drawn K start count rng)
  unfolding generate_pre_keys
  generate_pre_keys-eq-drawn start count rng h =
      generate_pre_keys_from-eq-drawn start 0 count rng (omega arith)
      ∙ ap (λ (x : ℕ). ok (drawn K x count rng)) (omega arith)

module _ {C : StorageContainer} (L : StorageContainerLaws C) (K : KeyApi C)
    (A : KeyApiLaws C L K) where
  pub save_pre_keys-drawn :
      (a n : ℕ) (rng : K.Rng) (s : C.pre_keys.Store)
      → L.pre_key_laws.Valid s
      → ((j : ℕ) → a ≤ j → L.pre_key_laws.find s j ≡ none)
      → let (r, s') = save_pre_keys K (drawn K a n rng) s in
        (r ≡ ok tt) × AddsBatch L.pre_key_laws s s' a n
  unfolding save_pre_keys
  save_pre_keys-drawn a zero rng s v free = (
    refl,
    record {
      valid = v;
      counted = omega arith;
      below = λ j h. refl;
      inside = λ j h k. absurd (omega arith);
      above = λ j h. free j (omega arith);
    },
  )
  save_pre_keys-drawn a (suc n) rng s v free =
      let laws = L.pre_key_laws in
      let k = K.new_pre_key a (K.generate rng).0 in
      let fits = A.pre_key-Fits a (K.generate rng).0 in
      let s1 = (C.pre_keys.save a k s).1 in
      let v1 : laws.Valid s1 = laws.save-Valid a k s v fits in
      let free1 : (j : ℕ) → suc a ≤ j → laws.find s1 j ≡ none =
        λ j h. ground (arith, laws.find-save a k s j v fits, free j) in
      let (done, batch) = save_pre_keys-drawn (suc a) n (K.generate rng).1 s1 v1 free1 in
      rw (laws.save-ok a k s v fits) (
        done,
        record {
          valid = batch.valid;
          counted = ground (arith, batch.counted, laws.count-save a k s v fits, free a);
          below = λ j h. ground (arith, batch.below j, laws.find-save a k s j v fits);
          inside = λ j h1 h2.
              ground (arith, batch.below j, batch.inside j, laws.find-save a k s j v fits);
          above = λ j h. batch.above j (omega arith);
        },
      )

module _ (checks : Bool) {C : StorageContainer} (L : StorageContainerLaws C) (K : KeyApi C)
    (A : KeyApiLaws C L K) where
  next_pre_key_id-ok :
      (m : Option ℕ)
      → unwrap_or 0 m + 1 < u32_mod
      → next_pre_key_id checks K m ≡ ok (unwrap_or 0 m + 1)
  unfolding add_u32
  next_pre_key_id-ok none h = refl
  next_pre_key_id-ok (some m) h = ground arith

  -- Replenishing a well-formed store whose next hundred ids fit in 32 bits returns, and adds a
  -- hundred keys under the ids after the highest one.
  pub replenish_store_adds :
      (rng : K.Rng) (s : C.pre_keys.Store) (m : Option ℕ)
      → L.pre_key_laws.Valid s
      → C.pre_keys.max_id s ≡ ok m
      → unwrap_or 0 m + 1 + replenish_count ≤ u32_mod
      → let (r, s') = replenish_store checks K rng s in
        (r ≡ ok tt) × AddsBatch L.pre_key_laws s s' (unwrap_or 0 m + 1) replenish_count
  unfolding replenish_store
  replenish_store_adds rng s m v e room =
      let a : ℕ = unwrap_or 0 m + 1 in
      rw (e, next_pre_key_id-ok m (omega arith), generate_pre_keys-eq-drawn checks K a 100 rng room)
        (save_pre_keys-drawn L K A a 100 rng s v
          (λ j h. next-new L.pre_key_laws s m j v e (omega arith)))

  -- Consuming a key of a well-formed store, where the next hundred ids after the highest one left
  -- fit in 32 bits, returns and leaves a well-formed store with at least `MIN_PRE_KEY_COUNT` keys,
  -- among them every other key that was there before.
  pub consume_store_refills :
      (rng : K.Rng) (id : ℕ) (s : C.pre_keys.Store) (m : Option ℕ)
      → L.pre_key_laws.Valid s
      → C.pre_keys.max_id (C.pre_keys.delete id s).1 ≡ ok m
      → unwrap_or 0 m + 1 + replenish_count ≤ u32_mod
      → let (r, s') = consume_store checks K rng id s in
        (r ≡ ok tt)
        × L.pre_key_laws.Valid s'
        × (min_pre_key_count ≤ C.pre_keys.count s')
        × ((j : ℕ) (k : C.pre_keys.KeyRecord)
            → j ≢ id
            → L.pre_key_laws.find s j ≡ some k
            → L.pre_key_laws.find s' j ≡ some k)
  unfolding consume_store
  consume_store_refills rng id s m v e room =
      let laws = L.pre_key_laws in
      let s1 = (C.pre_keys.delete id s).1 in
      let v1 : laws.Valid s1 = laws.delete-Valid id s v in
      let (done, batch) = replenish_store_adds rng s1 m v1 e room in
      rw (laws.delete-ok id s v) (elim (Bool-cases (ltb (C.pre_keys.count s1) min_pre_key_count)) [
        | inl low ↦ rw low (
          done,
          batch.valid,
          omega (arith, batch.counted),
          λ j k ne here.
              let kept : laws.find s1 j ≡ some k = ground (arith, laws.find-delete id s j v) in
              let old : j < unwrap_or 0 m + 1 = elim (Bool-cases (ltb (unwrap_or 0 m) j)) [
                | inl new ↦ absurd (ground (arith, next-new laws s1 m j v1 e))
                | inr within ↦ ground arith
              ] in
              batch.below j old ∙ kept,
        )
        | inr high ↦
            rw high
              (refl, v1, ground arith, λ j k ne here. ground (arith, laws.find-delete id s j v))
      ])

  -- When consuming a key leaves fewer than `MIN_PRE_KEY_COUNT`, and the id of the consumed key is
  -- one of the hundred after the highest one left, a new key is saved under that id: ids of
  -- consumed keys are given out again.
  pub consume_store_reissues :
      (rng : K.Rng) (id : ℕ) (s : C.pre_keys.Store) (m : Option ℕ)
      → L.pre_key_laws.Valid s
      → C.pre_keys.max_id (C.pre_keys.delete id s).1 ≡ ok m
      → unwrap_or 0 m + 1 + replenish_count ≤ u32_mod
      → C.pre_keys.count (C.pre_keys.delete id s).1 < min_pre_key_count
      → unwrap_or 0 m < id
      → id ≤ unwrap_or 0 m + replenish_count
      → (L.pre_key_laws.find (C.pre_keys.delete id s).1 id ≡ none)
        × (is_some (L.pre_key_laws.find (consume_store checks K rng id s).1 id) ≡ true)
  unfolding consume_store
  consume_store_reissues rng id s m v e room low above within =
      let laws = L.pre_key_laws in
      let s1 = (C.pre_keys.delete id s).1 in
      let v1 : laws.Valid s1 = laws.delete-Valid id s v in
      let (done, batch) = replenish_store_adds rng s1 m v1 e room in
      let few : ltb (C.pre_keys.count s1) min_pre_key_count ≡ true = ground arith in
      rw (laws.delete-ok id s v, few)
        (ground (arith, laws.find-delete id s id v), batch.inside id (omega arith) (omega arith))
