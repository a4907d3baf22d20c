-- ===== src/Keys.antt =====
-- rust/signal_bridge/src/keys.rs, and the part of libsignal that key generation calls.
use radix_relay.Prelude.{ℕ, zero, suc, ◌≡◌, Bool, List, [], ◌∷◌}
use radix_relay.Exec.{Exec, Outcome, ok, pure, lift, ◌>>=◌, add_u32}
use radix_relay.StorageTrait.{StorageContainer, StorageContainerLaws}

-- libsignal's keys and record types. `Rng` is the state of a random generator, and `generate` and
-- the signing functions draw from it. Records are built by their `new`.
pub record KeyApi (C : StorageContainer) : Type 1 where
  pub Rng : Type 0
  pub KeyPair : Type 0
  pub KemKeyPair : Type 0
  pub Signature : Type 0
  pub IdentityKeyPair : Type 0
  pub generate : Rng → KeyPair × Rng
  pub generate_kem : Rng → KemKeyPair × Rng
  pub generate_identity : Rng → IdentityKeyPair × Rng
  pub random_u32 : Rng → ℕ
  -- `identity_key_pair.private_key().calculate_signature(public key, rng)`
  pub calculate_signature : IdentityKeyPair → KeyPair → Exec Rng Signature
  pub calculate_kem_signature : IdentityKeyPair → KemKeyPair → Exec Rng Signature
  pub new_pre_key : ℕ → KeyPair → C.pre_keys.KeyRecord
  pub new_signed_pre_key : ℕ → ℕ → KeyPair → Signature → C.signed_pre_keys.KeyRecord
  pub signed_pre_key_id : C.signed_pre_keys.KeyRecord → Outcome ℕ
  pub new_kyber_pre_key : ℕ → ℕ → KemKeyPair → Signature → C.kyber_pre_keys.KeyRecord

-- What the accessors and the stores make of a new record.
pub record KeyApiLaws (C : StorageContainer) (L : StorageContainerLaws C) (K : KeyApi C)
    : Type 0 where
  pub pre_key-Fits : (i : ℕ) (k : K.KeyPair) → L.pre_key_laws.Fits i (K.new_pre_key i k)
  pub signed_pre_key-Fits :
      (i now : ℕ) (k : K.KeyPair) (g : K.Signature)
      → L.signed_pre_key_laws.Fits i (K.new_signed_pre_key i now k g)
  pub kyber_pre_key-Fits :
      (i now : ℕ) (k : K.KemKeyPair) (g : K.Signature)
      → L.kyber_pre_key_laws.Fits i (K.new_kyber_pre_key i now k g)
  pub signed_pre_key_id-new :
      (i now : ℕ) (k : K.KeyPair) (g : K.Signature)
      → K.signed_pre_key_id (K.new_signed_pre_key i now k g) ≡ ok i
  pub signed_timestamp-new :
      (i now : ℕ) (k : K.KeyPair) (g : K.Signature)
      → C.signed_pre_keys.timestamp (K.new_signed_pre_key i now k g) ≡ ok now
  pub kyber_timestamp-new :
      (i now : ℕ) (k : K.KemKeyPair) (g : K.Signature)
      → C.kyber_pre_keys.timestamp (K.new_kyber_pre_key i now k g) ≡ ok now

module _ {C : StorageContainer} (K : KeyApi C) where
  unfoldable pub generate_identity_key_pair : Exec K.Rng K.IdentityKeyPair
  generate_identity_key_pair rng = let (pair, rng') = K.generate_identity rng in (ok pair, rng')

  -- `KeyPair::generate(&mut rng)` and `kem::KeyPair::generate(.., &mut rng)`.
  abbrev pub generate_key_pair : Exec K.Rng K.KeyPair
  generate_key_pair rng = let (pair, rng') = K.generate rng in (ok pair, rng')

  abbrev pub generate_kem_key_pair : Exec K.Rng K.KemKeyPair
  generate_kem_key_pair rng = let (pair, rng') = K.generate_kem rng in (ok pair, rng')

module _ (overflow_checks : Bool) {C : StorageContainer} (K : KeyApi C) where
  -- The loop over `i in 0..count`, from round `i` on, with `left` rounds to go.
  unfoldable pub generate_pre_keys_from : ℕ → ℕ → ℕ → Exec K.Rng (List (ℕ × K.KeyPair))
  generate_pre_keys_from start_id i zero = pure []
  generate_pre_keys_from start_id i (suc left) = do
    key_id ← lift (add_u32 overflow_checks start_id i)
    key_pair ← generate_key_pair K
    pre_keys ← generate_pre_keys_from start_id (suc i) left
    pure ((key_id, key_pair) ∷ pre_keys)

  unfoldable pub generate_pre_keys : ℕ → ℕ → Exec K.Rng (List (ℕ × K.KeyPair))
  unfolding generate_pre_keys_from
  generate_pre_keys start_id count = generate_pre_keys_from start_id 0 count

-- `now` is the clock in milliseconds.
module _ {C : StorageContainer} (K : KeyApi C) where
  unfoldable pub generate_signed_pre_key :
      K.IdentityKeyPair → ℕ → ℕ → Exec K.Rng C.signed_pre_keys.KeyRecord
  generate_signed_pre_key identity_key_pair signed_pre_key_id now = do
    key_pair ← generate_key_pair K
    signature ← K.calculate_signature identity_key_pair key_pair
    pure (K.new_signed_pre_key signed_pre_key_id now key_pair signature)
