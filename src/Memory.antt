-- ===== src/Memory.antt =====
-- rust/signal_bridge/src/memory_storage.rs: the storage backend that keeps everything in maps. A
-- map behind its lock is an association list, which a call reads or replaces.
pub mod Address
pub mod Sessions
pub mod Identities
pub mod PreKeys
pub mod TimedKeys
pub mod Container
pub mod Trust
pub mod Ops
pub mod TimedLaws
pub mod PreKeyLaws
