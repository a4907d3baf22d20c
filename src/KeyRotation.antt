-- ===== src/KeyRotation.antt =====
-- rust/signal_bridge/src/key_rotation.rs, over any storage container. Signed and Kyber pre-keys
-- have the same age test and the same clean-up in the source, which differ in the store alone:
-- here each is one function of the store. `now` is the clock in milliseconds, and `rng` the state
-- of the generator that a call makes.
mod Deletion
pub mod Next
pub mod Cleanup
pub mod Age
pub mod Rotate
pub mod Replenish
use radix_relay.Prelude.{
  ℕ, zero, suc, ◌+◌, ◌*◌, ◌/◌, Bool, true, false, Option, none, some, List, [], ◌∷◌, ltb, leb,
  if◌then◌else◌,
}
use radix_relay.Exec.{
  Exec, Outcome, ok, err, panic, pure, gets, reads, lift, ◌>>=◌, ◌>>◌, add_u32, sub_u64,
}
use radix_relay.StorageTrait.{
  KeyStore, TimedKeyStore, StorageContainer, Storage, on_pre_keys, on_signed_pre_keys,
  on_kyber_pre_keys,
}
use radix_relay.Keys.{KeyApi, generate_pre_keys, generate_signed_pre_key, generate_kem_key_pair}

abbrev pub min_pre_key_count : ℕ
min_pre_key_count = 50

abbrev pub replenish_count : ℕ
replenish_count = 100

abbrev pub rotation_interval_secs : ℕ
rotation_interval_secs = 7 * 24 * 60 * 60

abbrev pub grace_period_secs : ℕ
grace_period_secs = 7 * 24 * 60 * 60

abbrev pub unwrap_or {ℓ} : {A : Type ℓ} → A → Option A → A
unwrap_or d none = d
unwrap_or d (some a) = a

module _ (T : TimedKeyStore) where
  -- The loop of the clean-up; the count is read again before each deletion.
  unfoldable pub delete_expired : List ℕ → Exec T.Store Unit
  delete_expired [] = pure tt
  delete_expired (id ∷ expired_ids) = do
    count ← gets T.count
    if ltb 1 count then T.delete id else pure tt
    delete_expired expired_ids

module _ (overflow_checks : Bool) (T : TimedKeyStore) where
  -- The test once the highest id is known.
  abbrev pub is_stale : ℕ → Option ℕ → Exec T.Store Bool
  is_stale now none = pure true
  is_stale now (some id) = do
    current_key ← reads (λ s. T.get s id)
    key_timestamp ← lift (T.timestamp current_key)
    key_age_millis ← lift (sub_u64 overflow_checks now key_timestamp)
    pure (ltb rotation_interval_secs (key_age_millis / 1000))

  -- `signed_pre_key_needs_rotation`, on the store of signed pre-keys.
  unfoldable pub needs_rotation : ℕ → Exec T.Store Bool
  needs_rotation now = do max_id ← reads T.max_id; is_stale now max_id

  -- `cleanup_expired_signed_pre_keys`, on the store of signed pre-keys.
  unfoldable pub cleanup_expired : ℕ → Exec T.Store Unit
  cleanup_expired now = do
    cutoff ← lift (sub_u64 overflow_checks now (grace_period_secs * 1000))
    expired_ids ← reads (λ s. T.older_than s cutoff)
    current_count ← gets T.count
    if leb current_count 1 then pure tt else delete_expired T expired_ids

module _ {C : StorageContainer} (K : KeyApi C) where
  -- The loop of the replenishment, over the pairs of an id and a key pair.
  unfoldable pub save_pre_keys : List (ℕ × K.KeyPair) → Exec C.pre_keys.Store Unit
  save_pre_keys [] = pure tt
  save_pre_keys ((key_id, key_pair) ∷ pre_keys) = do
    C.pre_keys.save key_id (K.new_pre_key key_id key_pair)
    save_pre_keys pre_keys

module _ (overflow_checks : Bool) {C : StorageContainer} (K : KeyApi C) where
  unfoldable pub rotate_signed_store :
      K.IdentityKeyPair → K.Rng → ℕ → Exec C.signed_pre_keys.Store Unit
  rotate_signed_store identity_key_pair rng now = do
    max_id ← reads C.signed_pre_keys.max_id
    next_id ← lift (add_u32 overflow_checks (unwrap_or 0 max_id) 1)
    new_signed_pre_key ← lift (generate_signed_pre_key K identity_key_pair next_id now rng).0
    id ← lift (K.signed_pre_key_id new_signed_pre_key)
    C.signed_pre_keys.save id new_signed_pre_key

  -- The key pair is drawn and signed before the id is computed again for the record.
  unfoldable pub rotate_kyber_store :
      K.IdentityKeyPair → K.Rng → ℕ → Exec C.kyber_pre_keys.Store Unit
  rotate_kyber_store identity_key_pair rng now = do
    max_id ← reads C.kyber_pre_keys.max_id
    (kyber_keypair, kyber_signature) ←
        lift
          ((do
            kyber_keypair ← generate_kem_key_pair K
            kyber_signature ← K.calculate_kem_signature identity_key_pair kyber_keypair
            pure (kyber_keypair, kyber_signature))
            rng).0
    next_id ← lift (add_u32 overflow_checks (unwrap_or 0 max_id) 1)
    C.kyber_pre_keys.save next_id (K.new_kyber_pre_key next_id now kyber_keypair kyber_signature)

  pub rotate_signed_pre_key : K.IdentityKeyPair → K.Rng → ℕ → Exec (Storage C) Unit
  rotate_signed_pre_key identity_key_pair rng now =
      on_signed_pre_keys (rotate_signed_store identity_key_pair rng now)

  pub rotate_kyber_pre_key : K.IdentityKeyPair → K.Rng → ℕ → Exec (Storage C) Unit
  rotate_kyber_pre_key identity_key_pair rng now =
      on_kyber_pre_keys (rotate_kyber_store identity_key_pair rng now)

  -- `.map(|id| id + 1).unwrap_or(1)`
  abbrev pub next_pre_key_id : Option ℕ → Outcome ℕ
  next_pre_key_id none = ok 1
  next_pre_key_id (some id) = add_u32 overflow_checks id 1

  unfoldable pub replenish_store : K.Rng → Exec C.pre_keys.Store Unit
  replenish_store rng = do
    max_id ← reads C.pre_keys.max_id
    next_id ← lift (next_pre_key_id max_id)
    new_pre_keys ← lift (generate_pre_keys overflow_checks K next_id replenish_count rng).0
    save_pre_keys K new_pre_keys

  unfoldable pub consume_store : K.Rng → ℕ → Exec C.pre_keys.Store Unit
  consume_store rng pre_key_id = do
    C.pre_keys.delete pre_key_id
    current_count ← gets C.pre_keys.count
    if ltb current_count min_pre_key_count then replenish_store rng else pure tt

  pub replenish_pre_keys : K.Rng → Exec (Storage C) Unit
  replenish_pre_keys rng = on_pre_keys (replenish_store rng)

  pub consume_pre_key : K.Rng → ℕ → Exec (Storage C) Unit
  consume_pre_key rng pre_key_id = on_pre_keys (consume_store rng pre_key_id)

module _ (overflow_checks : Bool) {C : StorageContainer} where
  unfoldable pub signed_pre_key_needs_rotation : ℕ → Exec (Storage C) Bool
  signed_pre_key_needs_rotation now =
      on_signed_pre_keys (needs_rotation overflow_checks C.signed_pre_keys now)

  unfoldable pub kyber_pre_key_needs_rotation : ℕ → Exec (Storage C) Bool
  kyber_pre_key_needs_rotation now =
      on_kyber_pre_keys (needs_rotation overflow_checks C.kyber_pre_keys now)

  unfoldable pub cleanup_expired_signed_pre_keys : ℕ → Exec (Storage C) Unit
  cleanup_expired_signed_pre_keys now =
      on_signed_pre_keys (cleanup_expired overflow_checks C.signed_pre_keys now)

  unfoldable pub cleanup_expired_kyber_pre_keys : ℕ → Exec (Storage C) Unit
  cleanup_expired_kyber_pre_keys now =
      on_kyber_pre_keys (cleanup_expired overflow_checks C.kyber_pre_keys now)
