-- ===== src/Bridge/Bundles.antt =====
-- The pre-key bundles of the bridge: `generate_pre_key_bundle` and `establish_session` of
-- rust/signal_bridge/src/lib.rs. The types of libsignal and bincode are parameters.
use radix_relay.Prelude.{
  ℕ, Option, none, some, List, [], ◌∷◌, String, ltb, if◌then◌else◌, ◌==◌, string_eq,
}
use radix_relay.Exec.{
  Exec, Outcome, ok, err, panic, invalid_input, serialization, protocol, pure, raise, reads, lift,
  ◌>>=◌,
}
use radix_relay.Memory.Address.{ProtocolAddress}
use radix_relay.StorageTrait.{StorageContainer, Storage}
use radix_relay.Bridge.Sessions.{first_device}

pub record SerializablePreKeyBundle : Type 0 where
  pub registration_id : ℕ
  pub device_id : ℕ
  pub pre_key_id : Option ℕ
  pub pre_key_public : Option (List ℕ)
  pub signed_pre_key_id : ℕ
  pub signed_pre_key_public : List ℕ
  pub signed_pre_key_signature : List ℕ
  pub identity_key : List ℕ
  pub kyber_pre_key_id : ℕ
  pub kyber_pre_key_public : List ℕ
  pub kyber_pre_key_signature : List ℕ

-- The arguments of `PreKeyBundle::new`, which are also what its accessors give.
pub record BundleParts (DeviceId PublicKey KemPublicKey IdentityKey : Type 0) : Type 0 where
  pub registration_id : ℕ
  pub device_id : DeviceId
  pub pre_key : Option (ℕ × PublicKey)
  pub signed_pre_key_id : ℕ
  pub signed_pre_key_public : PublicKey
  pub signed_pre_key_signature : List ℕ
  pub kyber_pre_key_id : ℕ
  pub kyber_pre_key_public : KemPublicKey
  pub kyber_pre_key_signature : List ℕ
  pub identity_key : IdentityKey

pub record BundleApi (C : StorageContainer) : Type 1 where
  pub DeviceId : Type 0
  pub PublicKey : Type 0
  pub KemPublicKey : Type 0
  pub IdentityKey : Type 0
  pub PreKeyBundle : Type 0
  -- `DeviceId::new` of a byte, and the number of a device
  pub new_device : ℕ → Option DeviceId
  pub device_number : DeviceId → ℕ
  pub serialize_public : PublicKey → List ℕ
  pub deserialize_public : List ℕ → Option PublicKey
  pub serialize_kem : KemPublicKey → List ℕ
  pub deserialize_kem : List ℕ → Option KemPublicKey
  pub serialize_identity : IdentityKey → List ℕ
  pub decode_identity : List ℕ → Option IdentityKey
  pub new_bundle : BundleParts DeviceId PublicKey KemPublicKey IdentityKey → Outcome PreKeyBundle
  pub parts : PreKeyBundle → Outcome (BundleParts DeviceId PublicKey KemPublicKey IdentityKey)
  -- the identity store: the public identity key of `get_identity_key_pair`, and the registration id
  pub get_identity_key : C.Identities → Outcome IdentityKey
  pub get_local_registration_id : C.Identities → Outcome ℕ
  -- the accessors of the records
  pub pre_key_public : C.pre_keys.KeyRecord → Outcome PublicKey
  pub signed_id : C.signed_pre_keys.KeyRecord → Outcome ℕ
  pub signed_public : C.signed_pre_keys.KeyRecord → Outcome PublicKey
  pub signed_signature : C.signed_pre_keys.KeyRecord → Outcome (List ℕ)
  pub kyber_public : C.kyber_pre_keys.KeyRecord → Outcome KemPublicKey
  pub kyber_signature : C.kyber_pre_keys.KeyRecord → Outcome (List ℕ)
  -- `bincode::serialize` and `bincode::deserialize`
  pub to_bytes : SerializablePreKeyBundle → Option (List ℕ)
  pub from_bytes : List ℕ → Option SerializablePreKeyBundle
  -- `establish_session_from_bundle` of the storage
  pub establish_session_from_bundle : ProtocolAddress → PreKeyBundle → Exec (Storage C) Unit

-- `.ok_or_else(|| SignalBridgeError::Protocol(..))`, `.map_err(..)`
abbrev pub or_protocol {ℓ} : {A : Type ℓ} → Option A → Outcome A
or_protocol none = err protocol
or_protocol (some a) = ok a

abbrev pub or_serialization {ℓ} : {A : Type ℓ} → Option A → Outcome A
or_serialization none = err serialization
or_serialization (some a) = ok a

abbrev pub first_of : {A B : Type 0} → Option (A × B) → Option A
first_of none = none
first_of (some (a, b)) = some a

module _ {C : StorageContainer} (P : BundleApi C) where
  abbrev pub Parts : Type 0
  Parts = BundleParts P.DeviceId P.PublicKey P.KemPublicKey P.IdentityKey

  -- The bundle of the newest keys, with their ids.
  unfoldable pub current_bundle : Exec (Storage C) (P.PreKeyBundle × ℕ × ℕ × ℕ)
  current_bundle = do
    identity_key ← reads (λ s. P.get_identity_key s.identity_store)
    registration_id ← reads (λ s. P.get_local_registration_id s.identity_store)
    max_pre_key_id ← reads (λ s. C.pre_keys.max_id s.pre_key_store)
    pre_key_id ← lift (or_protocol max_pre_key_id)
    max_signed_id ← reads (λ s. C.signed_pre_keys.max_id s.signed_pre_key_store)
    signed_pre_key_id ← lift (or_protocol max_signed_id)
    max_kyber_id ← reads (λ s. C.kyber_pre_keys.max_id s.kyber_pre_key_store)
    kyber_pre_key_id ← lift (or_protocol max_kyber_id)
    pre_key_record ← reads (λ s. C.pre_keys.get s.pre_key_store pre_key_id)
    signed_record ← reads (λ s. C.signed_pre_keys.get s.signed_pre_key_store signed_pre_key_id)
    kyber_record ← reads (λ s. C.kyber_pre_keys.get s.kyber_pre_key_store kyber_pre_key_id)
    device ← lift (or_protocol (P.new_device 1))
    pre_key ← lift (P.pre_key_public pre_key_record)
    signed_id ← lift (P.signed_id signed_record)
    signed_public ← lift (P.signed_public signed_record)
    signed_signature ← lift (P.signed_signature signed_record)
    kyber_public ← lift (P.kyber_public kyber_record)
    kyber_signature ← lift (P.kyber_signature kyber_record)
    bundle ← lift (
        P.new_bundle (record {
          registration_id = registration_id;
          device_id = device;
          pre_key = some (pre_key_id, pre_key);
          signed_pre_key_id = signed_id;
          signed_pre_key_public = signed_public;
          signed_pre_key_signature = signed_signature;
          kyber_pre_key_id = kyber_pre_key_id;
          kyber_pre_key_public = kyber_public;
          kyber_pre_key_signature = kyber_signature;
          identity_key = identity_key;
        }))
    pure (bundle, pre_key_id, signed_pre_key_id, kyber_pre_key_id)

  abbrev pub public_of : Option (ℕ × P.PublicKey) → Option (List ℕ)
  public_of none = none
  public_of (some (i, k)) = some (P.serialize_public k)

  abbrev pub serializable : Parts → SerializablePreKeyBundle
  serializable p = record {
    registration_id = p.registration_id;
    device_id = P.device_number p.device_id;
    pre_key_id = first_of p.pre_key;
    pre_key_public = public_of p.pre_key;
    signed_pre_key_id = p.signed_pre_key_id;
    signed_pre_key_public = P.serialize_public p.signed_pre_key_public;
    signed_pre_key_signature = p.signed_pre_key_signature;
    identity_key = P.serialize_identity p.identity_key;
    kyber_pre_key_id = p.kyber_pre_key_id;
    kyber_pre_key_public = P.serialize_kem p.kyber_pre_key_public;
    kyber_pre_key_signature = p.kyber_pre_key_signature;
  }

  abbrev pub bundle_bytes : P.PreKeyBundle → Exec (Storage C) (List ℕ)
  bundle_bytes bundle = do
    p ← lift (P.parts bundle)
    lift (or_serialization (P.to_bytes (serializable p)))

  unfoldable pub generate_pre_key_bundle : Exec (Storage C) (List ℕ × ℕ × ℕ × ℕ)
  unfolding current_bundle
  generate_pre_key_bundle = do
    (bundle, i, j, k) ← current_bundle
    bytes ← bundle_bytes bundle
    pure (bytes, i, j, k)

  -- The device id as a byte.
  abbrev pub device_of : ℕ → Outcome P.DeviceId
  device_of n = if ltb n 256 then or_protocol (P.new_device n) else err invalid_input

  -- `pre_key_public.as_ref().unwrap()` where there is an id.
  abbrev pub pre_key_of : Option ℕ → Option (List ℕ) → Outcome (Option (ℕ × P.PublicKey))
  pre_key_of none public = ok none
  pre_key_of (some id) none = panic
  pre_key_of (some id) (some bytes) = elim (P.deserialize_public bytes) [
    | none ↦ err serialization
    | some k ↦ ok (some (id, k))
  ]

  unfoldable pub bundle_of : SerializablePreKeyBundle → Exec (Storage C) P.PreKeyBundle
  bundle_of b = do
    device ← lift (device_of b.device_id)
    pre_key ← lift (pre_key_of b.pre_key_id b.pre_key_public)
    signed ← lift (or_serialization (P.deserialize_public b.signed_pre_key_public))
    kyber ← lift (or_serialization (P.deserialize_kem b.kyber_pre_key_public))
    identity ← lift (or_serialization (P.decode_identity b.identity_key))
    lift (
        P.new_bundle (record {
          registration_id = b.registration_id;
          device_id = device;
          pre_key = pre_key;
          signed_pre_key_id = b.signed_pre_key_id;
          signed_pre_key_public = signed;
          signed_pre_key_signature = b.signed_pre_key_signature;
          kyber_pre_key_id = b.kyber_pre_key_id;
          kyber_pre_key_public = kyber;
          kyber_pre_key_signature = b.kyber_pre_key_signature;
          identity_key = identity;
        }))

  unfoldable pub establish_named : String → List ℕ → Exec (Storage C) Unit
  unfolding bundle_of
  establish_named peer [] = raise invalid_input
  establish_named peer (byte ∷ bytes) = do
    b ← lift (or_serialization (P.from_bytes (byte ∷ bytes)))
    bundle ← bundle_of b
    P.establish_session_from_bundle (first_device peer) bundle

  unfoldable pub establish_session : String → List ℕ → Exec (Storage C) Unit
  unfolding establish_named
  establish_session peer bytes =
      if peer == "" then raise invalid_input else establish_named peer bytes
