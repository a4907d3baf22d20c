-- ===== src/Bridge/Contacting.antt =====
-- The contacts of the bridge: `add_contact_from_bundle`, `lookup_contact`, `assign_contact_alias`
-- and `list_contacts` of rust/signal_bridge/src/lib.rs, which hand the session store of the storage
-- to the contact manager. `now` is the clock in seconds.
use radix_relay.Prelude.{ℕ, Option, List, String}
use radix_relay.Exec.{Exec, Outcome, reads}
use radix_relay.Memory.Address.{ProtocolAddress}
use radix_relay.NostrIdentity.{IdentityApi}
use radix_relay.StorageTrait.{StorageContainer}
use radix_relay.StorageTrait.Peers.{SessionOps}
use radix_relay.Contacts
use radix_relay.Contacts.{ContactInfo, updated_later}
use radix_relay.Database.{ContactRow}
use radix_relay.Sql.Sorting.{OrderBy}
use radix_relay.Bridge.Messages.{SignalBridge, on_database}
use radix_relay.Bridge.Bundles.{BundleApi}
use radix_relay.Bridge.Peering.{identity_bytes}

module _ {C : StorageContainer} (I : IdentityApi) (P : BundleApi C) where
  unfoldable pub add_contact_from_bundle : ℕ → List ℕ → Option String → Exec (SignalBridge C) String
  add_contact_from_bundle now bundle_bytes user_alias = on_database (
      Contacts.add_contact_from_bundle I (λ b. identity_bytes (P.from_bytes b)) now bundle_bytes
        user_alias)

module _ {C : StorageContainer} (S : SessionOps C.Sessions) where
  abbrev pub sessions_of : SignalBridge C → ProtocolAddress → Outcome (Option S.SessionRecord)
  sessions_of s = S.load_session s.storage.session_store

  unfoldable pub lookup_contact : String → Exec (SignalBridge C) ContactInfo
  lookup_contact identifier =
      reads (λ s. Contacts.lookup_contact (sessions_of s) s.database identifier)

  unfoldable pub assign_contact_alias : ℕ → String → String → Exec (SignalBridge C) Unit
  assign_contact_alias now identifier new_alias s =
      on_database (Contacts.assign_contact_alias (sessions_of s) now identifier new_alias) s

  unfoldable pub list_contacts :
      OrderBy ContactRow updated_later → Exec (SignalBridge C) (List ContactInfo)
  list_contacts O = reads (λ s. Contacts.list_contacts (sessions_of s) O s.database)
