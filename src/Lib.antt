-- ===== src/Lib.antt =====
-- Radix Relay, the Rust signal bridge (rust/signal_bridge/src): Signal sessions, identities and keys
-- behind storage traits, the rotation and replenishment of keys, the history of messages in SQLite,
-- and the Nostr identity that is derived from the Signal one.
--
-- The parts and their files:
--   Exec            results and overflow of the Rust code: an outcome is a value, an error or a
--                   panic, and the state comes back beside each of them
--   StorageTrait    rust/signal_bridge/src/storage_trait.rs: the traits of the key stores and of a
--                   container as records, each with a record of the laws that clients rely on; Ops
--                   has ExtendedStorageOps, over libsignal's calls as a parameter
--   Keys            rust/signal_bridge/src/keys.rs: generate_identity_key_pair, generate_pre_keys,
--                   generate_signed_pre_key, over libsignal as a parameter
--   KeyRotation     rust/signal_bridge/src/key_rotation.rs, over any container: the functions keep
--                   the names of the source; those on one store end in _store, or stand for the
--                   function on signed and that on Kyber pre-keys at once (needs_rotation,
--                   cleanup_expired)
--   Memory          rust/signal_bridge/src/memory_storage.rs: the five stores and MemoryStorage;
--                   TimedLaws, PreKeyLaws and Container fill the laws of StorageTrait
--   Sqlite          rust/signal_bridge/src/sqlite_storage.rs: the five stores over their tables, the
--                   storage with its schema and settings, and the comparison with Memory; Laws,
--                   TimedLaws and Container fill the laws of StorageTrait
--   DbEncryption    rust/signal_bridge/src/db_encryption.rs: every function under its own name
--   Sql, Database   the SQL statements used, and the tables contacts, conversations and messages of
--                   rust/signal_bridge/src/sqlite_storage.rs
--   History         rust/signal_bridge/src/message_history.rs: every method under its own name
--   Contacts        rust/signal_bridge/src/contact_manager.rs, with what INSERT OR REPLACE deletes
--   Bridge          rust/signal_bridge/src/lib.rs, every method of SignalBridge under its own name:
--                   the keys at a start and their maintenance here and in Sessions; Messages for
--                   encrypt_message and decrypt_message, with Ratchet for their calls of the storage;
--                   Bundles, Peering and Contacting for bundles, derived keys and contacts; Json and
--                   Events for signed events and announcements; Subscribing; and Opening for new and
--                   Drop, over the storage on a file. Calls has sequences of calls; the other modules
--                   are proofs
--   Ffi             the functions for C++ of rust/signal_bridge/src/lib.rs, each under its own name,
--                   over Bridge, or over the SQLite storage for what reads the history or the
--                   settings; Records has the types that C++ sees
--   NostrIdentity   rust/signal_bridge/src/nostr_identity.rs
--   Tests           concrete inputs
--
-- A method of Bridge runs on the stores and the tables of a storage; Bridge.Opening.on_bridge runs it
-- on an opened SQLite storage, and Ffi.block_on inside a runtime, which may fail to be made.
--
-- The clock, the random generator and libsignal's keys, signatures, records and ratchet are arguments,
-- and so are JSON, base64, bincode, the tags and events of the nostr crate, and SQLCipher, which reads
-- a database file with a key: what a theorem needs of them is a named law. A number is a natural
-- number with the wrap-around of its width written out; whether an overflow panics or wraps is a
-- parameter. Loops run over lists or over a count, so no fuel is used. A query takes its rows in the
-- order of the table, and the sort of an ORDER BY, which may put equal times in any order, is a
-- parameter with laws; a statement fails only where a foreign key is broken.
--
-- Not modelled: what a failing SQL statement leaves, and the texts of errors; the declarations for cxx
-- in rust/signal_bridge/src/lib.rs, which repeat the signatures; the creation of the tables other than
-- schema_info, settings and bundle_metadata; the encoding of C++ texts; and
-- rust/signal_bridge/src/encryption.rs, encryption_trait.rs, session.rs and session_trait.rs, which
-- hold tests.
pub mod Prelude
pub mod Exec
pub mod StorageTrait
pub mod Keys
pub mod KeyRotation
pub mod Memory
pub mod Sql
pub mod Database
pub mod NostrIdentity
pub mod History
pub mod Contacts
pub mod Sqlite
pub mod DbEncryption
pub mod Bridge
pub mod Ffi
mod Tests
