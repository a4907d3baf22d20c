-- ===== src/Sqlite.antt =====
-- rust/signal_bridge/src/sqlite_storage.rs: the storage backend over SQLite tables. A table with a
-- primary key is an association list from the key. The columns that only SQLite fills and no
-- statement reads (`updated_at`, `trust_level` and the like) are left out. A statement fails only
-- where the text says so, so the branches for other errors of a query are not reached.
pub mod PreKeys
pub mod TimedKeys
pub mod Sessions
pub mod Identities
pub mod Laws
pub mod TimedLaws
pub mod Agreement
pub mod Peers
pub mod PeerKeys
pub mod Storage
pub mod Steps
pub mod Lifecycle
pub mod Live
pub mod Starts
pub mod Container
pub mod Ops
use radix_relay.Prelude.{ℕ, ◌≡◌, Option, none, some, List}
use radix_relay.Exec.{Outcome, ok, err, invalid_state}

-- `serialize` and `deserialize` of one of libsignal's types.
pub record Codec (A : Type 0) : Type 0 where
  pub serialize : A → Option (List ℕ)
  pub deserialize : List ℕ → Option A

-- What was serialized is read back.
abbrev pub IsCodec : {A : Type 0} → Codec A → Type 0
IsCodec {A} c = (a : A) (b : List ℕ) → c.serialize a ≡ some b → c.deserialize b ≡ some a

-- `.map_err(|e| SignalProtocolError::InvalidState("storage", ..))`
abbrev pub or_invalid_state {ℓ} : {A : Type ℓ} → Option A → Outcome A
or_invalid_state none = err invalid_state
or_invalid_state (some a) = ok a
