-- ===== src/Memory/Sessions.antt =====
-- `MemorySessionStore` of memory_storage.rs.
use radix_relay.Prelude.{ℕ, Option, List, [], length}
use radix_relay.Prelude.Assoc.{Assoc, lookup, insert, erase}
use radix_relay.Prelude.Decimal.{codes_eq}
use radix_relay.Exec.{Exec, Outcome, ok}
use radix_relay.Memory.Address.{ProtocolAddress, address_key}

pub record MemorySessionStore (SessionRecord : Type 0) : Type 0 where
  pub sessions : Assoc (List ℕ) SessionRecord

module _ {SessionRecord : Type 0} where
  pub new : MemorySessionStore SessionRecord
  new = record { sessions = [] }

  unfoldable pub load_session :
      MemorySessionStore SessionRecord → ProtocolAddress → Outcome (Option SessionRecord)
  load_session s address = ok (lookup (address_key address) s.sessions)

  unfoldable pub store_session :
      ProtocolAddress → SessionRecord → Exec (MemorySessionStore SessionRecord) Unit
  store_session address r s =
      (ok tt, record { sessions = insert (address_key address) r s.sessions })

  unfoldable pub session_count : MemorySessionStore SessionRecord → ℕ
  session_count s = length s.sessions

  unfoldable pub clear_all_sessions : Exec (MemorySessionStore SessionRecord) Unit
  clear_all_sessions s = (ok tt, record { sessions = [] })

  unfoldable pub delete_session : ProtocolAddress → Exec (MemorySessionStore SessionRecord) Unit
  delete_session address s = (ok tt, record { sessions = erase (address_key address) s.sessions })
