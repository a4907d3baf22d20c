-- ===== src/Ffi/Contacts.antt =====
-- The functions for C++ on contacts, in rust/signal_bridge/src/lib.rs, with those that take a
-- bundle. `now` is the clock in seconds.
use radix_relay.Prelude.{
  ℕ, Bool, Option, none, some, List, String, map, if◌then◌else◌, Eq, ◌==◌, string_eq,
}
use radix_relay.Exec.{Exec, Outcome, pure, lift, ◌>>=◌}
use radix_relay.NostrIdentity.{IdentityApi}
use radix_relay.StorageTrait.{StorageContainer}
use radix_relay.StorageTrait.Peers.{SessionOps}
use radix_relay.Database.{ContactRow}
use radix_relay.Sql.Sorting.{OrderBy}
use radix_relay.Contacts.{updated_later, generate_identity_fingerprint_from_key}
use radix_relay.Bridge.Messages.{SignalBridge}
use radix_relay.Bridge.Bundles.{BundleApi, or_protocol}
use radix_relay.Bridge.Peering as Peering
use radix_relay.Bridge.Peering.{or_invalid_input}
use radix_relay.Bridge.Contacting as Contacting
use radix_relay.Bridge.Json.{Base64}
use radix_relay.Ffi.{block_on}
use radix_relay.Ffi.Records.{ContactInfo, contact_out}

module _ (runtime : Bool) {C : StorageContainer} (S : SessionOps C.Sessions) where
  unfoldable pub lookup_contact : String → Exec (SignalBridge C) ContactInfo
  unfolding block_on
  lookup_contact identifier = do
    contact ← block_on runtime (Contacting.lookup_contact S identifier)
    pure (contact_out contact)

  unfoldable pub assign_contact_alias : ℕ → String → String → Exec (SignalBridge C) Unit
  unfolding block_on
  assign_contact_alias now identifier new_alias =
      block_on runtime (Contacting.assign_contact_alias S now identifier new_alias)

  unfoldable pub list_contacts :
      OrderBy ContactRow updated_later → Exec (SignalBridge C) (List ContactInfo)
  unfolding block_on
  list_contacts O = do
    contacts ← block_on runtime (Contacting.list_contacts S O)
    pure (map contact_out contacts)

-- An empty alias is none.
abbrev pub alias_of : String → Option String
alias_of user_alias = if user_alias == "" then none else some user_alias

module _ (runtime : Bool) {C : StorageContainer} (I : IdentityApi) (P : BundleApi C)
    (get_own_key : C.Identities → Outcome I.IdentityKey) ⦃e : Eq I.IdentityKey⦄ where
  unfoldable pub add_contact_and_establish_session :
      List ℕ → String → ℕ → Exec (SignalBridge C) String
  unfolding block_on
  add_contact_and_establish_session bundle_bytes user_alias now = block_on runtime (
      Peering.add_contact_and_establish_session I P get_own_key bundle_bytes (alias_of user_alias)
        now)

  unfoldable pub add_contact_and_establish_session_from_base64 :
      Base64 → String → String → ℕ → Exec (SignalBridge C) String
  unfolding add_contact_and_establish_session
  add_contact_and_establish_session_from_base64 B bundle_base64 user_alias now = do
    bundle_bytes ← lift (or_protocol (B.decode bundle_base64))
    add_contact_and_establish_session bundle_bytes user_alias now

module _ {C : StorageContainer} (I : IdentityApi) (P : BundleApi C) where
  unfoldable pub extract_rdx_from_bundle : List ℕ → Exec (SignalBridge C) String
  unfolding generate_identity_fingerprint_from_key
  extract_rdx_from_bundle bundle_bytes = do
    bundle ← lift (or_invalid_input (P.from_bytes bundle_bytes))
    identity_key ← lift (or_protocol (I.decode bundle.identity_key))
    pure (generate_identity_fingerprint_from_key I identity_key)

  unfoldable pub extract_rdx_from_bundle_base64 : Base64 → String → Exec (SignalBridge C) String
  unfolding extract_rdx_from_bundle
  extract_rdx_from_bundle_base64 B bundle_base64 = do
    bundle_bytes ← lift (or_protocol (B.decode bundle_base64))
    extract_rdx_from_bundle bundle_bytes
