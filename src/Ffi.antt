-- ===== src/Ffi.antt =====
-- The functions that rust/signal_bridge/src/lib.rs gives to C++, and the records of its module
-- `ffi`. Those that call an async method make a tokio runtime, which the system may refuse, and block
-- on the method; errors keep their kinds in their box. A `Box<SignalBridge>` is the bridge.
pub mod Records
pub mod Sessions
pub mod History
pub mod Contacts
pub mod Nostr
pub mod Signing
pub mod Announcing
pub mod Delivery
use radix_relay.Prelude.{Bool, if◌then◌else◌}
use radix_relay.Exec.{Exec, io, raise}

-- `let rt = Runtime::new()?; rt.block_on(m)`
unfoldable pub block_on : {S A : Type 0} → Bool → Exec S A → Exec S A
block_on runtime m = if runtime then m else raise io
