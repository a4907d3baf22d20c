-- ===== src/Bridge/Exchange.antt =====
-- A bundle that one bridge generates, as another takes it.
use radix_relay.Prelude.{
  ℕ, ◌<◌, ◌≡◌, ◌≢◌, refl, ap, ◌∙◌, true, false, Option, none, some, List, [], ◌∷◌, String, ltb,
  ◌==◌, string_eq, arith,
}
use radix_relay.Exec.{Exec, Outcome, ok, err, panic, continue}
use radix_relay.StorageTrait.{StorageContainer, Storage}
use radix_relay.StorageTrait.Tables.{ok-injective}
use radix_relay.Bridge.Sessions.{first_device}
use radix_relay.Bridge.Bundles.{
  SerializablePreKeyBundle, BundleApi, or_serialization, Parts, current_bundle, first_of, public_of,
  serializable, bundle_bytes, generate_pre_key_bundle, device_of, pre_key_of, bundle_of,
  establish_named, establish_session,
}

-- What was written is read back, by libsignal's types and by bincode; a device's number is a byte;
-- a bundle is made of its parts.
pub record BundleLaws {C : StorageContainer} (P : BundleApi C) : Type 0 where
  pub new_device-number : (d : P.DeviceId) → P.new_device (P.device_number d) ≡ some d
  pub number_small : (d : P.DeviceId) → P.device_number d < 256
  pub public_back : (k : P.PublicKey) → P.deserialize_public (P.serialize_public k) ≡ some k
  pub kem_back : (k : P.KemPublicKey) → P.deserialize_kem (P.serialize_kem k) ≡ some k
  pub identity_back : (k : P.IdentityKey) → P.decode_identity (P.serialize_identity k) ≡ some k
  pub new-parts : (b : P.PreKeyBundle) (p : Parts P) → P.parts b ≡ ok p → P.new_bundle p ≡ ok b
  pub bytes_back :
      (b : SerializablePreKeyBundle) (bytes : List ℕ)
      → P.to_bytes b ≡ some bytes
      → P.from_bytes bytes ≡ some b
  pub bytes_not_empty : (b : SerializablePreKeyBundle) → P.to_bytes b ≢ some []

module _ {S A B : Type 0} where
  continue-ok :
      (r : Outcome A) (k : A → Exec S B) (s : S) {b : B}
      → (continue r k s).0 ≡ ok b
      → (a : A) × (r ≡ ok a) × ((k a s).0 ≡ ok b)
  continue-ok (ok a) k s h = (a, refl, h)
  continue-ok (err e) k s h = absurd cc
  continue-ok panic k s h = absurd cc

or_serialization-ok : {A : Type 0} (o : Option A) {a : A} → or_serialization o ≡ ok a → o ≡ some a
or_serialization-ok none h = absurd cc
or_serialization-ok (some b) h = ground arith

module _ {C : StorageContainer} (P : BundleApi C) (L : BundleLaws P) where
  device_of-number : (d : P.DeviceId) → device_of P (P.device_number d) ≡ ok d
  device_of-number d =
      let small : ltb (P.device_number d) 256 ≡ true = ground (arith, L.number_small d) in
      rw (small, L.new_device-number d)

  pre_key_of-back :
      (o : Option (ℕ × P.PublicKey)) → pre_key_of P (first_of o) (public_of P o) ≡ ok o
  pre_key_of-back none = refl
  pre_key_of-back (some (i, k)) = rw (L.public_back k)

  bundle_of-serializable :
      (b : P.PreKeyBundle) (p : Parts P) (t : Storage C)
      → P.parts b ≡ ok p
      → bundle_of P (serializable P p) t ≡ (ok b, t)
  unfolding bundle_of
  bundle_of-serializable b p t e = rw (
    device_of-number p.device_id,
    pre_key_of-back p.pre_key,
    L.public_back p.signed_pre_key_public,
    L.kem_back p.kyber_pre_key_public,
    L.identity_back p.identity_key,
    L.new-parts b p e,
  )

  establish_named-eq :
      (peer : String) (bytes : List ℕ) (b : P.PreKeyBundle) (p : Parts P) (t : Storage C)
      → P.parts b ≡ ok p
      → P.to_bytes (serializable P p) ≡ some bytes
      → establish_named P peer bytes t ≡ P.establish_session_from_bundle (first_device peer) b t
  unfolding establish_named
  establish_named-eq peer [] b p t e f = absurd (L.bytes_not_empty (serializable P p) f)
  establish_named-eq peer (byte ∷ bytes) b p t e f =
      rw (L.bytes_back (serializable P p) (byte ∷ bytes) f, bundle_of-serializable b p t e)

  -- If what was written is read back and is not empty, the number of a device is a byte and a bundle
  -- is made of its parts, then the bytes that a storage generates for its current bundle hand exactly
  -- that bundle to libsignal on any other storage, where a session is established with the first
  -- device of a named peer.
  pub establish_session-generated :
      (s t : Storage C) (peer : String) (bytes : List ℕ) (i j k : ℕ)
      → (peer == "") ≡ false
      → (generate_pre_key_bundle P s).0 ≡ ok (bytes, i, j, k)
      → (b : P.PreKeyBundle) × ((current_bundle P s).0 ≡ ok (b, i, j, k))
        × (establish_session P peer bytes t
            ≡ P.establish_session_from_bundle (first_device peer) b t)
  unfolding generate_pre_key_bundle establish_session
  establish_session-generated s t peer bytes i j k named h =
      let (x, made, rest) = continue-ok (current_bundle P s).0 _ (current_bundle P s).1 h in
      let u = (current_bundle P s).1 in
      let (written, wrote, rest') =
        continue-ok (bundle_bytes P x.0 u).0 _ (bundle_bytes P x.0 u).1 rest in
      let (p, has_parts, serialized) = continue-ok (P.parts x.0) _ u wrote in
      let e : (written, x.1, x.2, x.3) ≡ (bytes, i, j, k) = ok-injective rest' in
      let f =
        or_serialization-ok (P.to_bytes (serializable P p)) serialized ∙ ap (λ y. some y.0) e in
      (
        x.0,
        made ∙ ap (λ y. ok (x.0, y.1, y.2, y.3)) e,
        rw named (establish_named-eq peer bytes x.0 p t has_parts f),
      )
