-- ===== src/Bridge/Upkeep.antt =====
-- What `perform_key_maintenance` of lib.rs leaves on the stores of signed and Kyber pre-keys.
use radix_relay.Prelude.{
  ℕ, ◌+◌, ◌-◌, ◌≤◌, ◌≡◌, refl, ap, ◌∙◌, ◌⊎◌, inl, inr, Bool, false, Option, some, ltb, Bool-cases,
  Option-cases, arith,
}
use radix_relay.Exec.{Exec, Outcome, ok, u32_mod}
use radix_relay.StorageTrait.{
  TimedKeyStore, TimedKeyStoreLaws, StorageContainer, StorageContainerLaws, Storage,
}
use radix_relay.Keys.{KeyApi, KeyApiLaws}
use radix_relay.Bridge.{flagged, IdentityStore, KeyMaintenanceResult, perform_key_maintenance}
use radix_relay.KeyRotation.{
  unwrap_or, needs_rotation, cleanup_expired, rotate_signed_store, rotate_kyber_store,
  replenish_store, replenish_count, min_pre_key_count,
}
use radix_relay.KeyRotation.Next.{HasRoom, max_id-eq}
use radix_relay.KeyRotation.Age.{interval_millis, needs_rotation-found, needs_rotation_iff}
use radix_relay.KeyRotation.Cleanup.{grace_millis, cleanup_expired_keeps}
use radix_relay.KeyRotation.Rotate.{rotate_signed_store_adds, rotate_kyber_store_adds}
use radix_relay.KeyRotation.Replenish.{replenish_store_adds}

module _ (checks : Bool) (T : TimedKeyStore) (L : TimedKeyStoreLaws T) where
  -- If the highest key of a well-formed store is not older than the interval, then after a clean-up,
  -- with the clock past the grace period, it still is the highest key, and no rotation is due.
  pub cleanup_expired-fresh :
      (now : ℕ) (s : T.Store) (n ts : ℕ) {k : T.KeyRecord}
      → L.Valid s
      → T.max_id s ≡ ok (some n)
      → L.find s n ≡ some k
      → T.timestamp k ≡ ok ts
      → ts ≤ now
      → now ≤ ts + interval_millis
      → grace_millis ≤ now
      → let (r, s') = cleanup_expired checks T now s in
        (r ≡ ok tt)
        × L.Valid s'
        × (T.max_id s' ≡ ok (some n))
        × (L.find s' n ≡ some k)
        × (needs_rotation checks T now s' ≡ (ok false, s'))
  cleanup_expired-fresh now s n ts {k} v e found time past fresh grace =
      let cutoff : ℕ = now - grace_millis in
      let s' = (cleanup_expired checks T now s).1 in
      let (done, v', nonempty, kept, sub) = cleanup_expired_keeps checks T L now s v grace in
      let young : L.expired cutoff k ≡ false = elim (Bool-cases (L.expired cutoff k)) [
        | inl old ↦ absurd (omega (arith, L.expired-lt cutoff k time old))
        | inr recent ↦ recent
      ] in
      let here : L.find s' n ≡ some k = kept n k found young in
      let top : T.max_id s' ≡ ok (some n) = max_id-eq L.laws s' n v' here (λ i above.
        elim (Option-cases (L.find s' i)) [
          | inl absent ↦ absent
          | inr (q, there) ↦ absurd (ground (arith, sub i q there, L.max-above s n i v e above))
        ]) in
      (
        done,
        v',
        top,
        here,
        needs_rotation-found checks T L now s' n ts v' top here time past
            ∙ ap (λ (b : Bool). (ok b, s')) (ground arith),
      )

-- The highest key `k` of a well-formed store was made at `ts`, not after the clock.
pub record HasNewest (T : TimedKeyStore) (L : TimedKeyStoreLaws T) (now ts : ℕ) (s : T.Store)
    : Type 0 where
  pub valid : L.Valid s
  pub newest : ℕ
  pub k : T.KeyRecord
  pub highest : T.max_id s ≡ ok (some newest)
  pub found : L.find s newest ≡ some k
  pub time : T.timestamp k ≡ ok ts
  pub past : ts ≤ now

-- The age test and the rotation, as they follow each other.
module _ (checks : Bool) (T : TimedKeyStore) (L : TimedKeyStoreLaws T)
    (rotate : Exec T.Store Unit) where
  rotated_or_fresh :
      (now ts : ℕ) (s : T.Store)
      → HasNewest T L now ts s
      → (now ≤ ts + interval_millis) ⊎ (ts + interval_millis + 1000 ≤ now)
      → ((rotate s).0 ≡ ok tt)
      → HasNewest T L now now (rotate s).1
      → (b : Bool) × (needs_rotation checks T now s ≡ (ok b, s))
        × ((flagged b rotate s).0 ≡ ok b)
        × (us : ℕ) × HasNewest T L now us (flagged b rotate s).1
        × (now ≤ us + interval_millis)
  rotated_or_fresh now ts s h age done after =
      let (b, e, due) =
        needs_rotation_iff checks T L now s h.newest ts h.valid h.highest h.found h.time h.past in
      elim (Bool-cases b) [
        | inl yes_due ↦ (b, e, rw (yes_due, done), now, rw (yes_due, done) after, omega arith)
        | inr not_due ↦ (
          b,
          e,
          rw not_due,
          ts,
          rw not_due h,
          elim age [ inl fresh ↦ fresh | inr old ↦ absurd (ground (arith, due.1 old)) ],
        )
      ]

module _ (checks : Bool) {C : StorageContainer} (L : StorageContainerLaws C) (K : KeyApi C)
    (A : KeyApiLaws C L K) where
  rotated_signed :
      (pair : K.IdentityKeyPair) (rng : K.Rng) (now ts : ℕ) (s : C.signed_pre_keys.Store)
      {g : K.Signature}
      → HasNewest C.signed_pre_keys L.signed_pre_key_laws now ts s
      → HasRoom L.signed_pre_key_laws.laws s
      → (K.calculate_signature pair (K.generate rng).0 (K.generate rng).1).0 ≡ ok g
      → ((rotate_signed_store checks K pair rng now s).0 ≡ ok tt)
        × HasNewest C.signed_pre_keys L.signed_pre_key_laws now now
            (rotate_signed_store checks K pair rng now s).1
  rotated_signed pair rng now ts s {g} h room signed =
      let (done, added) =
        rotate_signed_store_adds checks L K A pair rng now s (some h.newest) {g = g} h.valid room
          h.highest signed in
      (
        done,
        record {
          valid = added.valid;
          newest = h.newest + 1;
          k = K.new_signed_pre_key (h.newest + 1) now (K.generate rng).0 g;
          highest = added.highest;
          found = added.saved;
          time = A.signed_timestamp-new (h.newest + 1) now (K.generate rng).0 g;
          past = omega arith;
        },
      )

  rotated_kyber :
      (pair : K.IdentityKeyPair) (rng : K.Rng) (now ts : ℕ) (s : C.kyber_pre_keys.Store)
      {g : K.Signature}
      → HasNewest C.kyber_pre_keys L.kyber_pre_key_laws now ts s
      → HasRoom L.kyber_pre_key_laws.laws s
      → (K.calculate_kem_signature pair (K.generate_kem rng).0 (K.generate_kem rng).1).0 ≡ ok g
      → ((rotate_kyber_store checks K pair rng now s).0 ≡ ok tt)
        × HasNewest C.kyber_pre_keys L.kyber_pre_key_laws now now
            (rotate_kyber_store checks K pair rng now s).1
  rotated_kyber pair rng now ts s {g} h room signed =
      let (done, added) =
        rotate_kyber_store_adds checks L K A pair rng now s (some h.newest) {g = g} h.valid room
          h.highest signed in
      (
        done,
        record {
          valid = added.valid;
          newest = h.newest + 1;
          k = K.new_kyber_pre_key (h.newest + 1) now (K.generate_kem rng).0 g;
          highest = added.highest;
          found = added.saved;
          time = A.kyber_timestamp-new (h.newest + 1) now (K.generate_kem rng).0 g;
          past = omega arith;
        },
      )

  replenished :
      (rng : K.Rng) (s : C.pre_keys.Store) (m : Option ℕ)
      → L.pre_key_laws.Valid s
      → C.pre_keys.max_id s ≡ ok m
      → unwrap_or 0 m + 1 + replenish_count ≤ u32_mod
      → let few = ltb (C.pre_keys.count s) min_pre_key_count in
        let (r, s') = flagged few (replenish_store checks K rng) s in
        (r ≡ ok few) × L.pre_key_laws.Valid s' × (min_pre_key_count ≤ C.pre_keys.count s')
  replenished rng s m v e room =
      let (done, batch) = replenish_store_adds checks L K A rng s m v e room in
      elim (Bool-cases (ltb (C.pre_keys.count s) min_pre_key_count)) [
        | inl few ↦ rw (few, done) (refl, batch.valid, omega (arith, batch.counted))
        | inr many ↦ rw many (refl, v, ground arith)
      ]

  -- On a well-formed storage with room for new ids, whose newest signed and Kyber pre-keys were not
  -- made after the clock and are not within the second after the interval, with an identity key that
  -- signs and the clock past the grace period, key maintenance returns, and then neither rotation is
  -- due and at least `MIN_PRE_KEY_COUNT` pre-keys are there.
  pub perform_key_maintenance-upkeep :
      (I : IdentityStore C K) (rng : ℕ → K.Rng) (now ts us : ℕ) (s : Storage C) (m : Option ℕ)
      {pair : K.IdentityKeyPair} {g h : K.Signature}
      → I.get_identity_key_pair s.identity_store ≡ ok pair
      → HasNewest C.signed_pre_keys L.signed_pre_key_laws now ts s.signed_pre_key_store
      → HasRoom L.signed_pre_key_laws.laws s.signed_pre_key_store
      → (now ≤ ts + interval_millis) ⊎ (ts + interval_millis + 1000 ≤ now)
      → HasNewest C.kyber_pre_keys L.kyber_pre_key_laws now us s.kyber_pre_key_store
      → HasRoom L.kyber_pre_key_laws.laws s.kyber_pre_key_store
      → (now ≤ us + interval_millis) ⊎ (us + interval_millis + 1000 ≤ now)
      → L.pre_key_laws.Valid s.pre_key_store
      → C.pre_keys.max_id s.pre_key_store ≡ ok m
      → unwrap_or 0 m + 1 + replenish_count ≤ u32_mod
      → (K.calculate_signature pair (K.generate (rng 0)).0 (K.generate (rng 0)).1).0 ≡ ok g
      → (K.calculate_kem_signature pair (K.generate_kem (rng 1)).0 (K.generate_kem (rng 1)).1).0
        ≡ ok h
      → grace_millis ≤ now
      → let (r, s') = perform_key_maintenance checks K I rng now s in
        (result : KeyMaintenanceResult) × (r ≡ ok result)
        × ((needs_rotation checks C.signed_pre_keys now s'.signed_pre_key_store).0 ≡ ok false)
        × ((needs_rotation checks C.kyber_pre_keys now s'.kyber_pre_key_store).0 ≡ ok false)
        × (min_pre_key_count ≤ C.pre_keys.count s'.pre_key_store)
  unfolding perform_key_maintenance
  perform_key_maintenance-upkeep I rng now ts us s m {pair} {g} {h} identity hs rs ages hk rk agek v
        e room sg sk grace =
      let S = C.signed_pre_keys in
      let Q = C.kyber_pre_keys in
      let (d1, n1) = rotated_signed pair (rng 0) now ts s.signed_pre_key_store hs rs sg in
      let (d2, n2) = rotated_kyber pair (rng 1) now us s.kyber_pre_key_store hk rk sk in
      let (b1, e1, f1, t1, h1, y1) =
        rotated_or_fresh checks S L.signed_pre_key_laws
          (rotate_signed_store checks K pair (rng 0) now) now ts s.signed_pre_key_store hs ages d1
          n1 in
      let (b2, e2, f2, t2, h2, y2) =
        rotated_or_fresh checks Q L.kyber_pre_key_laws
          (rotate_kyber_store checks K pair (rng 1) now) now us s.kyber_pre_key_store hk agek d2
          n2 in
      let (c1, v1, top1, found1, fresh1) =
        cleanup_expired-fresh checks S L.signed_pre_key_laws now
          (flagged b1 (rotate_signed_store checks K pair (rng 0) now) s.signed_pre_key_store).1
          h1.newest t1 h1.valid h1.highest h1.found h1.time h1.past y1 grace in
      let (c2, v2, top2, found2, fresh2) =
        cleanup_expired-fresh checks Q L.kyber_pre_key_laws now
          (flagged b2 (rotate_kyber_store checks K pair (rng 1) now) s.kyber_pre_key_store).1
          h2.newest t2 h2.valid h2.highest h2.found h2.time h2.past y2 grace in
      let (d3, v3, many) = replenished (rng 2) s.pre_key_store m v e room in
      let few = ltb (C.pre_keys.count s.pre_key_store) min_pre_key_count in
      rw (identity, e1, f1, e2, f2, c1, c2, d3)
        (
          record {
            signed_pre_key_rotated = b1;
            kyber_pre_key_rotated = b2;
            pre_keys_replenished = few;
          },
          refl,
          ap (λ (r : Outcome Bool × S.Store). r.0) fresh1,
          ap (λ (r : Outcome Bool × Q.Store). r.0) fresh2,
          many,
        )
