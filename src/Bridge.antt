-- ===== src/Bridge.antt =====
-- The keys of the bridge in rust/signal_bridge/src/lib.rs: `ensure_keys_exist`, which `new` calls on
-- the opened storage, and `perform_key_maintenance`. The storage is any container. The n-th
-- generator that a call makes is `rng n`; `now` is the clock in milliseconds, the same for all the
-- readings of one call.
pub mod Startup
pub mod Remade
pub mod Upkeep
pub mod Sessions
pub mod Untouched
pub mod Reset
pub mod Forgetting
pub mod Messages
pub mod Restart
pub mod Recording
pub mod Ratchet
pub mod Soundness
pub mod Calls
pub mod Sending
pub mod Bundles
pub mod Exchange
pub mod Peering
pub mod Meeting
pub mod Contacting
pub mod Json
pub mod Events
pub mod Opening
pub mod Reopening
pub mod Subscribing
use radix_relay.Prelude.{
  ℕ, Bool, true, false, Option, List, [], ◌∷◌, ltb, if◌then◌else◌, ◌==◌, nat_eq,
}
use radix_relay.Exec.{Exec, Outcome, ok, err, panic, pure, gets, reads, lift, ◌>>=◌, ◌>>◌}
use radix_relay.StorageTrait.{
  StorageContainer, Storage, on_pre_keys, on_signed_pre_keys, on_kyber_pre_keys,
}
use radix_relay.Keys.{
  KeyApi, generate_identity_key_pair, generate_pre_keys, generate_signed_pre_key,
  generate_kem_key_pair,
}
use radix_relay.KeyRotation.{
  min_pre_key_count, save_pre_keys, rotate_signed_store, rotate_kyber_store, replenish_store,
  signed_pre_key_needs_rotation, kyber_pre_key_needs_rotation, cleanup_expired_signed_pre_keys,
  cleanup_expired_kyber_pre_keys,
}

-- What the bridge calls of `IdentityKeyStore` and `ExtendedIdentityStore`.
pub record IdentityStore (C : StorageContainer) (K : KeyApi C) : Type 0 where
  pub get_identity_key_pair : C.Identities → Outcome K.IdentityKeyPair
  pub set_local_identity_key_pair : K.IdentityKeyPair → Exec C.Identities Unit
  pub set_local_registration_id : ℕ → Exec C.Identities Unit

abbrev pub on_identities :
    {C : StorageContainer} {A : Type 0} → Exec C.Identities A → Exec (Storage C) A
on_identities m s = let (r, t) = m s.identity_store in (r, record s { identity_store = t })

module _ (overflow_checks : Bool) {C : StorageContainer} (K : KeyApi C) where
  abbrev make_pre_keys : K.Rng → Exec C.pre_keys.Store Unit
  make_pre_keys rng = do
    pre_keys ← lift (generate_pre_keys overflow_checks K 1 100 rng).0
    save_pre_keys K pre_keys

  -- The three blocks of `ensure_keys_exist` that make keys where a store has too few.
  unfoldable pub ensure_pre_keys : K.Rng → Exec C.pre_keys.Store Unit
  ensure_pre_keys rng = do
    current_pre_key_count ← gets C.pre_keys.count
    if ltb current_pre_key_count 5 then make_pre_keys rng else pure tt

module _ {C : StorageContainer} (K : KeyApi C) where
  abbrev make_signed_pre_key : K.IdentityKeyPair → K.Rng → ℕ → Exec C.signed_pre_keys.Store Unit
  make_signed_pre_key identity_key_pair rng now = do
    signed_pre_key ← lift (generate_signed_pre_key K identity_key_pair 1 now rng).0
    id ← lift (K.signed_pre_key_id signed_pre_key)
    C.signed_pre_keys.save id signed_pre_key

  unfoldable pub ensure_signed_pre_key :
      K.IdentityKeyPair → K.Rng → ℕ → Exec C.signed_pre_keys.Store Unit
  ensure_signed_pre_key identity_key_pair rng now = do
    current_signed_pre_key_count ← gets C.signed_pre_keys.count
    if current_signed_pre_key_count == 0
        then make_signed_pre_key identity_key_pair rng now
        else pure tt

  abbrev make_kyber_pre_key : K.IdentityKeyPair → K.Rng → ℕ → Exec C.kyber_pre_keys.Store Unit
  make_kyber_pre_key identity_key_pair rng now = do
    (kyber_keypair, kyber_signature) ←
        lift
          ((do
            kyber_keypair ← generate_kem_key_pair K
            kyber_signature ← K.calculate_kem_signature identity_key_pair kyber_keypair
            pure (kyber_keypair, kyber_signature))
            rng).0
    C.kyber_pre_keys.save 1 (K.new_kyber_pre_key 1 now kyber_keypair kyber_signature)

  unfoldable pub ensure_kyber_pre_key :
      K.IdentityKeyPair → K.Rng → ℕ → Exec C.kyber_pre_keys.Store Unit
  ensure_kyber_pre_key identity_key_pair rng now = do
    current_kyber_pre_key_count ← gets C.kyber_pre_keys.count
    if current_kyber_pre_key_count == 0
        then make_kyber_pre_key identity_key_pair rng now
        else pure tt

module _ {C : StorageContainer} (K : KeyApi C) (I : IdentityStore C K) where
  abbrev pub make_identity : (ℕ → K.Rng) → Exec C.Identities K.IdentityKeyPair
  make_identity rng = do
    new_identity ← lift (generate_identity_key_pair K (rng 0)).0
    I.set_local_identity_key_pair new_identity
    I.set_local_registration_id (K.random_u32 (rng 1))
    pure new_identity

  -- The identity key pair, made where there is none.
  abbrev pub identity_or_new :
      Outcome K.IdentityKeyPair → (ℕ → K.Rng) → Exec C.Identities K.IdentityKeyPair
  identity_or_new (ok existing_identity) rng = pure existing_identity
  identity_or_new (err _) rng = make_identity rng
  identity_or_new panic rng = lift panic

  unfoldable pub ensure_identity : (ℕ → K.Rng) → Exec C.Identities K.IdentityKeyPair
  ensure_identity rng s = identity_or_new (I.get_identity_key_pair s) rng s

module _ (overflow_checks : Bool) {C : StorageContainer} (K : KeyApi C)
    (I : IdentityStore C K) where
  unfoldable pub ensure_keys_exist : (ℕ → K.Rng) → ℕ → Exec (Storage C) K.IdentityKeyPair
  unfolding ensure_identity ensure_pre_keys ensure_signed_pre_key ensure_kyber_pre_key
  ensure_keys_exist rng now = do
    identity_key_pair ← on_identities (ensure_identity K I rng)
    on_pre_keys (ensure_pre_keys overflow_checks K (rng 2))
    on_signed_pre_keys (ensure_signed_pre_key K identity_key_pair (rng 3) now)
    on_kyber_pre_keys (ensure_kyber_pre_key K identity_key_pair (rng 4) now)
    pure identity_key_pair

pub record KeyMaintenanceResult : Type 0 where
  pub signed_pre_key_rotated : Bool
  pub kyber_pre_key_rotated : Bool
  pub pre_keys_replenished : Bool

-- `if b { m; flag = true }` on one store, with the flag as the result.
abbrev pub flagged : {S : Type 0} → Bool → Exec S Unit → Exec S Bool
flagged b m s = if b then (m >> pure true) s else (ok false, s)

module _ (overflow_checks : Bool) {C : StorageContainer} (K : KeyApi C)
    (I : IdentityStore C K) where
  unfoldable pub perform_key_maintenance : (ℕ → K.Rng) → ℕ → Exec (Storage C) KeyMaintenanceResult
  unfolding signed_pre_key_needs_rotation kyber_pre_key_needs_rotation
      cleanup_expired_signed_pre_keys cleanup_expired_kyber_pre_keys
  perform_key_maintenance rng now = do
    identity_key_pair ← reads (λ s. I.get_identity_key_pair s.identity_store)
    signed_due ← signed_pre_key_needs_rotation overflow_checks now
    signed_rotated ←
        on_signed_pre_keys
          (flagged signed_due (rotate_signed_store overflow_checks K identity_key_pair (rng 0) now))
    kyber_due ← kyber_pre_key_needs_rotation overflow_checks now
    kyber_rotated ←
        on_kyber_pre_keys
          (flagged kyber_due (rotate_kyber_store overflow_checks K identity_key_pair (rng 1) now))
    cleanup_expired_signed_pre_keys overflow_checks now
    cleanup_expired_kyber_pre_keys overflow_checks now
    pre_key_count ← gets (λ s. C.pre_keys.count s.pre_key_store)
    replenished ←
        on_pre_keys (
          flagged (ltb pre_key_count min_pre_key_count) (replenish_store overflow_checks K (rng 2)))
    pure (record {
      signed_pre_key_rotated = signed_rotated;
      kyber_pre_key_rotated = kyber_rotated;
      pre_keys_replenished = replenished;
    })
