-- ===== src/Message.antt =====
-- The private ClientServer transport boundary of Wattswarm nodes (crates/message-gateway).
pub mod Config
pub mod Admission
pub mod Bucket
pub mod Owner
pub mod Membership
pub mod Gaps
pub mod Sessions
pub mod Control
pub mod Cleanup
pub mod Publish
pub mod Token
