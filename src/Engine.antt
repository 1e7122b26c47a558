-- ===== src/Engine.antt =====
-- The engine's own decisions (crates/ipn-core/src/engine.rs): which peers to dial and when, which
-- of two connections to keep, and where a packet goes.
pub mod Addresses
pub mod Status
pub mod RelayApply
pub mod Gossip
pub mod Names
pub mod Rename
pub mod Audit
pub mod Session
pub mod Operations
pub mod Tick
pub mod Recovery
pub mod Joining
pub mod Backoff
pub mod Config
pub mod Dialing
pub mod Connections
pub mod Pump
