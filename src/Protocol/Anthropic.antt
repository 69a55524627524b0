-- ===== src/Protocol/Anthropic.antt =====
-- src/protocol/anthropic.rs: the adapter of Anthropic Messages.
pub mod Blocks
pub mod Message
pub mod Tools
pub mod Body
pub mod Request
pub mod Response
pub mod Usage
pub mod Events
