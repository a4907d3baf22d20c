-- ===== src/Tests/Peers.antt =====
-- Two devices of one name, a store of identities, and a stand-in for the derivation of Nostr keys.
use radix_relay.Prelude.{
  ℕ, ◌≡◌, ◌≢◌, refl, ap, true, false, none, some, List, [], ◌∷◌, nat_eq, arith,
}
use radix_relay.Exec.{ok}
use radix_relay.Memory.Address.{ProtocolAddress, address_key, address_key-injective}
use radix_relay.Memory.Identities.{
  MemoryIdentityStore, sending, save_identity, is_trusted_identity, delete_identity,
}
use radix_relay.Memory.Trust.{is_trusted_identity-save_delete}
use radix_relay.NostrIdentity.{IdentityApi}

abbrev phone : ProtocolAddress
phone = record { name = b'a' ∷ b':' ∷ []; device_id = 1 }

abbrev laptop : ProtocolAddress
laptop = record { name = b'a' ∷ b':' ∷ []; device_id = 12 }

phone-laptop : phone ≢ laptop
phone-laptop e = absurd (omega (arith, ap (λ (a : ProtocolAddress). a.device_id) e))

address_key-injective_example : phone ≡ phone
address_key-injective_example = address_key-injective phone phone refl

abbrev identities : MemoryIdentityStore ℕ ℕ
identities = record {
  identity_keys = (address_key phone, 5) ∷ [];
  local_identity_key_pair = none;
  local_registration_id = none;
}

is_trusted_identity-save_delete_example :
    let saved = (save_identity phone 6 identities).1 in
    (is_trusted_identity saved phone 5 sending ≡ ok false)
    × (is_trusted_identity saved laptop 5 sending ≡ is_trusted_identity identities laptop 5 sending)
    × (is_trusted_identity (delete_identity phone saved).1 phone 5 sending ≡ ok true)
is_trusted_identity-save_delete_example =
    is_trusted_identity-save_delete identities phone laptop 6 5 sending phone-laptop

-- A key pair is its public and its private number; the derivation keeps the public one.
abbrev pub identity_api : IdentityApi
identity_api = record {
  IdentityKey = ℕ;
  IdentityKeyPair = ℕ × ℕ;
  identity_key = λ p. p.0;
  serialize = λ k. k ∷ [];
  decode = λ bytes. none;
  hkdf_expand = λ key info. some key;
  SecretKey = List ℕ;
  Keys = List ℕ;
  PublicKey = List ℕ;
  secret_key_from_slice = λ bytes. some bytes;
  new_keys = λ k. k;
  secret_key = λ k. k;
  public_key = λ k. 0 ∷ k;
  to_hex = λ k. "";
  sha256_hex = λ bytes. "a";
}
