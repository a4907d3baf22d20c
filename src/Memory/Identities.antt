-- ===== src/Memory/Identities.antt =====
-- `MemoryIdentityStore` of memory_storage.rs.
use radix_relay.Prelude.{
  ℕ, Bool, true, not, Option, none, some, List, [], length, if◌then◌else◌, Eq, ◌==◌,
}
use radix_relay.Prelude.Assoc.{Assoc, lookup, insert, erase}
use radix_relay.Prelude.Decimal.{codes_eq}
use radix_relay.Exec.{Exec, Outcome, ok, err, panic, invalid_state}
use radix_relay.Memory.Address.{ProtocolAddress, address_key}

pub record MemoryIdentityStore (IdentityKey IdentityKeyPair : Type 0) : Type 0 where
  pub identity_keys : Assoc (List ℕ) IdentityKey
  pub local_identity_key_pair : Option IdentityKeyPair
  pub local_registration_id : Option ℕ

-- libsignal's answer of `save_identity`.
pub data IdentityChange : Type 0 where
  new_or_unchanged replaced_existing : IdentityChange

-- libsignal's `Direction`, which the store does not read.
pub data Direction : Type 0 where
  sending receiving : Direction

-- `.await.ok().flatten()`
abbrev pub ok_flatten {ℓ} : {A : Type ℓ} → Outcome (Option A) → Option A
ok_flatten (ok o) = o
ok_flatten (err _) = none
ok_flatten panic = none

abbrev pub or_unset {ℓ} : {A : Type ℓ} → Option A → Outcome A
or_unset none = err invalid_state
or_unset (some a) = ok a

module _ {IdentityKey : Type 0} ⦃e : Eq IdentityKey⦄ where
  abbrev pub identity_change : Option IdentityKey → IdentityKey → IdentityChange
  identity_change none identity_key = new_or_unchanged
  identity_change (some existing_key) identity_key =
      if not (existing_key == identity_key) then replaced_existing else new_or_unchanged

  abbrev pub trusts : Option IdentityKey → IdentityKey → Bool
  trusts none identity_key = true
  trusts (some stored_key) identity_key = stored_key == identity_key

module _ {IdentityKey IdentityKeyPair : Type 0} ⦃e : Eq IdentityKey⦄ where
  unfoldable pub get_identity :
      MemoryIdentityStore IdentityKey IdentityKeyPair
      → ProtocolAddress
      → Outcome (Option IdentityKey)
  get_identity s address = ok (lookup (address_key address) s.identity_keys)

  unfoldable pub save_identity :
      ProtocolAddress
      → IdentityKey
      → Exec (MemoryIdentityStore IdentityKey IdentityKeyPair) IdentityChange
  unfolding get_identity
  save_identity address identity_key s =
      let existing = ok_flatten (get_identity s address) in
      let key = address_key address in
      (
        ok (identity_change existing identity_key),
        record s { identity_keys = insert key identity_key s.identity_keys },
      )

  unfoldable pub is_trusted_identity :
      MemoryIdentityStore IdentityKey IdentityKeyPair
      → ProtocolAddress
      → IdentityKey
      → Direction
      → Outcome Bool
  is_trusted_identity s address identity_key direction =
      ok (trusts (lookup (address_key address) s.identity_keys) identity_key)

module _ {IdentityKey IdentityKeyPair : Type 0} where
  pub new : MemoryIdentityStore IdentityKey IdentityKeyPair
  new = record { identity_keys = []; local_identity_key_pair = none; local_registration_id = none }

  unfoldable pub get_identity_key_pair :
      MemoryIdentityStore IdentityKey IdentityKeyPair → Outcome IdentityKeyPair
  get_identity_key_pair s = or_unset s.local_identity_key_pair

  unfoldable pub get_local_registration_id :
      MemoryIdentityStore IdentityKey IdentityKeyPair → Outcome ℕ
  get_local_registration_id s = or_unset s.local_registration_id

  unfoldable pub identity_count : MemoryIdentityStore IdentityKey IdentityKeyPair → ℕ
  identity_count s = length s.identity_keys

  unfoldable pub set_local_identity_key_pair :
      IdentityKeyPair → Exec (MemoryIdentityStore IdentityKey IdentityKeyPair) Unit
  set_local_identity_key_pair pair s = (ok tt, record s { local_identity_key_pair = some pair })

  unfoldable pub set_local_registration_id :
      ℕ → Exec (MemoryIdentityStore IdentityKey IdentityKeyPair) Unit
  set_local_registration_id id s = (ok tt, record s { local_registration_id = some id })

  unfoldable pub get_peer_identity :
      MemoryIdentityStore IdentityKey IdentityKeyPair
      → ProtocolAddress
      → Outcome (Option IdentityKey)
  get_peer_identity s address = ok (lookup (address_key address) s.identity_keys)

  unfoldable pub delete_identity :
      ProtocolAddress → Exec (MemoryIdentityStore IdentityKey IdentityKeyPair) Unit
  delete_identity address s =
      (ok tt, record s { identity_keys = erase (address_key address) s.identity_keys })

  unfoldable pub clear_all_identities : Exec (MemoryIdentityStore IdentityKey IdentityKeyPair) Unit
  clear_all_identities s = (ok tt, record s { identity_keys = [] })

  unfoldable pub clear_local_identity : Exec (MemoryIdentityStore IdentityKey IdentityKeyPair) Unit
  clear_local_identity s =
      (ok tt, record s { local_identity_key_pair = none; local_registration_id = none })
