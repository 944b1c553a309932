-- ===== src/Gateway.antt =====
-- The projection gateway of crates/gateway.
pub mod Contracts
pub mod Json
pub mod Stream
pub mod Outbox
pub mod UiEvents
pub mod Reannounce
pub mod Gossip
pub mod NodeEvent
pub mod Projection
pub mod Space
pub mod Ingest
