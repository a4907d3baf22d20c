-- ===== src/Sqlite/Identities.antt =====
-- `SqliteIdentityStore` of sqlite_storage.rs, over the tables `local_identity` and `identity_keys`.
use radix_relay.Prelude.{ℕ, Bool, Option, none, some, List, [], length, if◌then◌else◌, Eq, ◌==◌}
use radix_relay.Prelude.Assoc.{Assoc, lookup, insert, erase}
use radix_relay.Prelude.Decimal.{codes_eq}
use radix_relay.Exec.{Exec, Outcome, Error, ok, err, panic, invalid_state, protocol}
use radix_relay.Memory.Address.{ProtocolAddress, address_eq}
use radix_relay.Memory.Identities.{
  IdentityChange, new_or_unchanged, replaced_existing, Direction, trusts,
}
use radix_relay.Sqlite.{or_invalid_state}

-- The row `id = 1` of `local_identity`; `private_key` is the serialized key pair.
pub record LocalIdentityRow : Type 0 where
  pub registration_id : ℕ
  pub private_key : List ℕ
  pub public_key : List ℕ

pub record SqliteIdentityStore : Type 0 where
  pub local_identity : Option LocalIdentityRow
  pub identity_keys : Assoc ProtocolAddress (List ℕ)

-- libsignal's `IdentityKey` and `IdentityKeyPair`, whose `serialize` does not fail.
pub record IdentityKeyApi : Type 1 where
  pub IdentityKey : Type 0
  pub IdentityKeyPair : Type 0
  pub serialize_key : IdentityKey → List ℕ
  pub decode_key : List ℕ → Option IdentityKey
  pub serialize_pair : IdentityKeyPair → List ℕ
  pub decode_pair : List ℕ → Option IdentityKeyPair
  pub identity_key : IdentityKeyPair → IdentityKey

abbrev registration_or : ℕ → Option LocalIdentityRow → ℕ
registration_or d none = d
registration_or d (some row) = row.registration_id

abbrev private_key_or : List ℕ → Option LocalIdentityRow → List ℕ
private_key_or d none = d
private_key_or d (some row) = row.private_key

abbrev public_key_or : List ℕ → Option LocalIdentityRow → List ℕ
public_key_or d none = d
public_key_or d (some row) = row.public_key

-- What saving a key reports, from the bytes that were stored.
abbrev pub stored_change : Option (List ℕ) → List ℕ → IdentityChange
stored_change none serialized_key = new_or_unchanged
stored_change (some existing_data) serialized_key =
    if existing_data == serialized_key then new_or_unchanged else replaced_existing

unfoldable pub get_local_registration_id : SqliteIdentityStore → Outcome ℕ
get_local_registration_id s = elim s.local_identity [
  | some row ↦ ok row.registration_id
  | none ↦ err invalid_state
]

unfoldable pub identity_count : SqliteIdentityStore → ℕ
identity_count s = length s.identity_keys

-- `COALESCE((SELECT private_key ..), X'')`, and so on.
unfoldable pub set_local_registration_id : ℕ → Exec SqliteIdentityStore Unit
set_local_registration_id registration_id s = (
  ok tt,
  record s {
    local_identity = some (record {
      registration_id = registration_id;
      private_key = private_key_or [] s.local_identity;
      public_key = public_key_or [] s.local_identity;
    });
  },
)

unfoldable pub delete_identity : ProtocolAddress → Exec SqliteIdentityStore Unit
delete_identity address s = (ok tt, record s { identity_keys = erase address s.identity_keys })

unfoldable pub clear_all_identities : Exec SqliteIdentityStore Unit
clear_all_identities s = (ok tt, record s { identity_keys = [] })

unfoldable pub clear_local_identity : Exec SqliteIdentityStore Unit
clear_local_identity s = (ok tt, record s { local_identity = none })

module _ (P : IdentityKeyApi) where
  unfoldable pub get_identity_key_pair : SqliteIdentityStore → Outcome P.IdentityKeyPair
  get_identity_key_pair s = elim s.local_identity [
    | some row ↦ or_invalid_state (P.decode_pair row.private_key)
    | none ↦ err invalid_state
  ]

  unfoldable pub set_local_identity_key_pair : P.IdentityKeyPair → Exec SqliteIdentityStore Unit
  set_local_identity_key_pair identity_key_pair s = (
    ok tt,
    record s {
      local_identity = some (record {
        registration_id = registration_or 0 s.local_identity;
        private_key = P.serialize_pair identity_key_pair;
        public_key = P.serialize_key (P.identity_key identity_key_pair);
      });
    },
  )

  unfoldable pub save_identity :
      ProtocolAddress → P.IdentityKey → Exec SqliteIdentityStore IdentityChange
  save_identity address identity_key s =
      let serialized_key = P.serialize_key identity_key in
      (
        ok (stored_change (lookup address s.identity_keys) serialized_key),
        record s { identity_keys = insert address serialized_key s.identity_keys },
      )

  abbrev key_or : Error → Option P.IdentityKey → Outcome (Option P.IdentityKey)
  key_or e none = err e
  key_or e (some identity_key) = ok (some identity_key)

  -- The stored bytes, decoded; `e` is the error for bytes that are no key.
  abbrev decoded_key : Error → Option (List ℕ) → Outcome (Option P.IdentityKey)
  decoded_key e none = ok none
  decoded_key e (some key_data) = key_or e (P.decode_key key_data)

  unfoldable pub get_identity :
      SqliteIdentityStore → ProtocolAddress → Outcome (Option P.IdentityKey)
  get_identity s address = decoded_key invalid_state (lookup address s.identity_keys)

  unfoldable pub get_peer_identity :
      SqliteIdentityStore → ProtocolAddress → Outcome (Option P.IdentityKey)
  get_peer_identity s address = decoded_key protocol (lookup address s.identity_keys)

module _ (P : IdentityKeyApi) ⦃e : Eq P.IdentityKey⦄ where
  abbrev trusted : Outcome (Option P.IdentityKey) → P.IdentityKey → Outcome Bool
  trusted (ok stored) identity_key = ok (trusts stored identity_key)
  trusted (err e) identity_key = err e
  trusted panic identity_key = panic

  unfoldable pub is_trusted_identity :
      SqliteIdentityStore → ProtocolAddress → P.IdentityKey → Direction → Outcome Bool
  unfolding get_identity
  is_trusted_identity s address identity_key direction =
      trusted (get_identity P s address) identity_key
