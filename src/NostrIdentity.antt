-- ===== src/NostrIdentity.antt =====
-- rust/signal_bridge/src/nostr_identity.rs: Nostr keys derived from Signal identity keys.
use radix_relay.Prelude.{ℕ, ◌≡◌, Option, none, some, List, String, inl, inr, Option-cases}
pub use radix_relay.Prelude.Numerals.{codes}
use radix_relay.Exec.{Outcome, ok, err, panic, key_derivation}

-- What libsignal, `hkdf` and `nostr` give. `hkdf_expand key info` is `Hkdf::<Sha256>::new(None, key)`
-- with `expand(info)` into 32 bytes.
pub record IdentityApi : Type 1 where
  pub IdentityKey : Type 0
  pub IdentityKeyPair : Type 0
  pub identity_key : IdentityKeyPair → IdentityKey
  pub serialize : IdentityKey → List ℕ
  pub decode : List ℕ → Option IdentityKey
  pub hkdf_expand : List ℕ → List ℕ → Option (List ℕ)
  pub SecretKey : Type 0
  pub Keys : Type 0
  pub PublicKey : Type 0
  pub secret_key_from_slice : List ℕ → Option SecretKey
  pub new_keys : SecretKey → Keys
  pub secret_key : Keys → SecretKey
  pub public_key : Keys → PublicKey
  pub to_hex : PublicKey → String
  -- `format!("{:x}", sha256.finalize())` of the bytes given
  pub sha256_hex : List ℕ → String

abbrev pub or_derivation_error {ℓ} : {A : Type ℓ} → Option A → Outcome A
or_derivation_error none = err key_derivation
or_derivation_error (some a) = ok a

abbrev pub then_outcome {ℓ κ} : {A : Type ℓ} {B : Type κ} → Outcome A → (A → Outcome B) → Outcome B
then_outcome (ok a) f = f a
then_outcome (err e) f = err e
then_outcome panic f = panic

abbrev pub map_outcome {ℓ κ} : {A : Type ℓ} {B : Type κ} → (A → B) → Outcome A → Outcome B
map_outcome f (ok a) = ok (f a)
map_outcome f (err e) = err e
map_outcome f panic = panic

module _ (I : IdentityApi) where
  unfoldable pub derive_from_signal_identity : I.IdentityKeyPair → Outcome I.Keys
  derive_from_signal_identity pair =
      then_outcome
        (or_derivation_error (
          I.hkdf_expand (I.serialize (I.identity_key pair)) (codes "radix_relay_nostr_derivation")))
        (λ derived_key.
          then_outcome (or_derivation_error (I.secret_key_from_slice derived_key))
            (λ secret_key. ok (I.new_keys secret_key)))

  unfoldable pub derive_public_key_from_peer_identity : I.IdentityKey → Outcome I.PublicKey
  derive_public_key_from_peer_identity peer_identity =
      then_outcome
        (or_derivation_error
          (I.hkdf_expand (I.serialize peer_identity) (codes "radix_relay_nostr_derivation")))
        (λ derived_key.
          then_outcome (or_derivation_error (I.secret_key_from_slice derived_key))
            (λ secret_key. ok (I.public_key (I.new_keys secret_key))))

  -- A peer derives from the public identity key the public key that its owner derives, and both
  -- derivations fail together.
  pub derive_public_key-agrees :
      (pair : I.IdentityKeyPair)
      → derive_public_key_from_peer_identity (I.identity_key pair)
        ≡ map_outcome I.public_key (derive_from_signal_identity pair)
  unfolding derive_from_signal_identity derive_public_key_from_peer_identity
  derive_public_key-agrees pair =
      elim (Option-cases (
        I.hkdf_expand (I.serialize (I.identity_key pair)) (codes "radix_relay_nostr_derivation"))) [
          | inl e ↦ rw e
          | inr (derived, e) ↦ rw e (elim (Option-cases (I.secret_key_from_slice derived)) [
            | inl f ↦ rw f
            | inr (secret, f) ↦ rw f
          ])
        ]

  -- The secret Nostr key is a function of the public identity key: two key pairs with one public
  -- key, whatever their private keys, derive the same Nostr keys.
  derive_from_signal_identity-public :
      (pair other : I.IdentityKeyPair)
      → I.identity_key pair ≡ I.identity_key other
      → derive_from_signal_identity pair ≡ derive_from_signal_identity other
  unfolding derive_from_signal_identity
  derive_from_signal_identity-public pair other same = rw same
