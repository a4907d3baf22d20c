-- ===== src/Tests.antt =====
-- Concrete inputs to the operations, at which the theorems that have conditions apply.
mod Keys
mod Peers
mod Messages
mod Contacts
mod Startup
mod Upkeep
mod Backends
mod Files
mod Reset
mod Recording
mod Exchange
mod Meeting
mod Values
mod Nostr
mod Runs
