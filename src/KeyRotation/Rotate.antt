-- ===== src/KeyRotation/Rotate.antt =====
-- The rotations of key_rotation.rs, and the age test and the clean-up that follow them.
use radix_relay.Prelude.{
  ℕ, ◌+◌, ◌-◌, ◌≤◌, ◌≡◌, ◌≢◌, inl, inr, ap, ◌∙◌, Bool, false, Option, none, some, nat_eq,
  Bool-cases, arith,
}
use radix_relay.Exec.{ok}
use radix_relay.StorageTrait.{
  TimedKeyStore, TimedKeyStoreLaws, StorageContainer, StorageContainerLaws,
}
use radix_relay.Keys.{KeyApi, KeyApiLaws, generate_signed_pre_key}
use radix_relay.KeyRotation.{
  unwrap_or, needs_rotation, cleanup_expired, rotate_signed_store, rotate_kyber_store,
}
use radix_relay.KeyRotation.Age.{interval_millis, needs_rotation-found}
use radix_relay.KeyRotation.Next.{HasRoom, AddsNext, save-AddsNext, add_u32-next}
use radix_relay.KeyRotation.Cleanup.{grace_millis, cleanup_expired_removes}

module _ (checks : Bool) {C : StorageContainer} (L : StorageContainerLaws C) (K : KeyApi C)
    (A : KeyApiLaws C L K) where
  -- If the identity key signs, rotating a well-formed store of signed pre-keys with room for one
  -- more id returns, and adds under the next id exactly the new record, stamped with the clock.
  pub rotate_signed_store_adds :
      (pair : K.IdentityKeyPair) (rng : K.Rng) (now : ℕ) (s : C.signed_pre_keys.Store)
      (m : Option ℕ) {g : K.Signature}
      → let laws = L.signed_pre_key_laws.laws in
        laws.Valid s
        → HasRoom laws s
        → C.signed_pre_keys.max_id s ≡ ok m
        → (K.calculate_signature pair (K.generate rng).0 (K.generate rng).1).0 ≡ ok g
        → let (r, s') = rotate_signed_store checks K pair rng now s in
          let n = unwrap_or 0 m + 1 in
          (r ≡ ok tt) × AddsNext laws s s' n (K.new_signed_pre_key n now (K.generate rng).0 g)
  unfolding rotate_signed_store generate_signed_pre_key
  rotate_signed_store_adds pair rng now s m {g} v room e signed =
      let laws = L.signed_pre_key_laws.laws in
      let n : ℕ = unwrap_or 0 m + 1 in
      let fits = A.signed_pre_key-Fits n now (K.generate rng).0 g in
      rw (e, add_u32-next laws checks s m v room e, signed, A.signed_pre_key_id-new)
        (laws.save-ok n _ s v fits, save-AddsNext laws s m _ v e fits)

  -- If the identity key signs, rotating a well-formed store of Kyber pre-keys with room for one more
  -- id returns, and adds under the next id exactly the new record, stamped with the clock.
  pub rotate_kyber_store_adds :
      (pair : K.IdentityKeyPair) (rng : K.Rng) (now : ℕ) (s : C.kyber_pre_keys.Store) (m : Option ℕ)
      {g : K.Signature}
      → let laws = L.kyber_pre_key_laws.laws in
        laws.Valid s
        → HasRoom laws s
        → C.kyber_pre_keys.max_id s ≡ ok m
        → (K.calculate_kem_signature pair (K.generate_kem rng).0 (K.generate_kem rng).1).0 ≡ ok g
        → let (r, s') = rotate_kyber_store checks K pair rng now s in
          let n = unwrap_or 0 m + 1 in
          (r ≡ ok tt) × AddsNext laws s s' n (K.new_kyber_pre_key n now (K.generate_kem rng).0 g)
  unfolding rotate_kyber_store
  rotate_kyber_store_adds pair rng now s m {g} v room e signed =
      let laws = L.kyber_pre_key_laws.laws in
      let n : ℕ = unwrap_or 0 m + 1 in
      let fits = A.kyber_pre_key-Fits n now (K.generate_kem rng).0 g in
      rw (e, signed, add_u32-next laws checks s m v room e)
        (laws.save-ok n _ s v fits, save-AddsNext laws s m _ v e fits)

module _ (checks : Bool) (T : TimedKeyStore) (L : TimedKeyStoreLaws T) where
  -- After a key made at `now` has been added above all others, no rotation is due before the
  -- interval has passed.
  pub AddsNext-fresh :
      (now later : ℕ) (s s' : T.Store) (n : ℕ) {k : T.KeyRecord}
      → AddsNext L.laws s s' n k
      → T.timestamp k ≡ ok now
      → now ≤ later
      → later ≤ now + interval_millis
      → needs_rotation checks T later s' ≡ (ok false, s')
  AddsNext-fresh now later s s' n added time h1 h2 =
      rw
        (needs_rotation-found checks T L later s' n now added.valid added.highest added.saved time
          h1)
        (ap (λ (b : Bool). (ok b, s')) (ground arith))

  -- A key that made a rotation due at `now` is gone after the clean-up at that time, if a key made
  -- at `now` has been added in between: the grace period does not begin at the rotation.
  pub AddsNext-cleanup_gone :
      (now ts : ℕ) (s s' : T.Store) (n m : ℕ) {k old : T.KeyRecord}
      → L.Valid s
      → AddsNext L.laws s s' n k
      → T.timestamp k ≡ ok now
      → L.find s m ≡ some old
      → T.timestamp old ≡ ok ts
      → ts + interval_millis + 1000 ≤ now
      → L.find (cleanup_expired checks T now s').1 m ≡ none
  AddsNext-cleanup_gone now ts s s' n m {k} {old} v added time found old_time due =
      let cutoff : ℕ = now - grace_millis in
      let ne : m ≢ n = λ e. ground (arith, added.is_new, ap (L.find s) e) in
      let young : L.expired cutoff k ≡ false = elim (Bool-cases (L.expired cutoff k)) [
        | inl e ↦ absurd (omega (arith, L.expired-lt cutoff k time e))
        | inr e ↦ e
      ] in
      cleanup_expired_removes checks T L now s' n m added.valid (omega arith) added.saved young
        (added.others m ne ∙ found) (L.lt-expired cutoff old old_time (omega arith))
