-- ===== src/Sqlite/Sessions.antt =====
-- `SqliteSessionStore` of sqlite_storage.rs, over the table `sessions`: the column `session_data` by
-- name and device.
use radix_relay.Prelude.{ℕ, Option, none, some, List, [], length, nat_eq}
use radix_relay.Prelude.Assoc.{Assoc, lookup, insert, erase}
use radix_relay.Exec.{Exec, Outcome, ok, err, invalid_state, lift, ◌>>=◌}
use radix_relay.Memory.Address.{ProtocolAddress, address_eq}
use radix_relay.Sqlite.{Codec, or_invalid_state}

pub record SqliteSessionStore : Type 0 where
  pub sessions : Assoc ProtocolAddress (List ℕ)

module _ {SessionRecord : Type 0} (codec : Codec SessionRecord) where
  unfoldable pub load_session :
      SqliteSessionStore → ProtocolAddress → Outcome (Option SessionRecord)
  load_session s address = elim (lookup address s.sessions) [
    | some session_data ↦ elim (codec.deserialize session_data) [
      | some session ↦ ok (some session)
      | none ↦ err invalid_state
    ]
    | none ↦ ok none
  ]

  unfoldable pub store_session : ProtocolAddress → SessionRecord → Exec SqliteSessionStore Unit
  store_session address r = do
    serialized ← lift (or_invalid_state (codec.serialize r))
    λ s. (ok tt, record { sessions = insert address serialized s.sessions })

unfoldable pub session_count : SqliteSessionStore → ℕ
session_count s = length s.sessions

unfoldable pub clear_all_sessions : Exec SqliteSessionStore Unit
clear_all_sessions s = (ok tt, record { sessions = [] })

unfoldable pub delete_session : ProtocolAddress → Exec SqliteSessionStore Unit
delete_session address s = (ok tt, record { sessions = erase address s.sessions })
