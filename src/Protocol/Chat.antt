-- ===== src/Protocol/Chat.antt =====
-- src/protocol/chat.rs: the adapter of OpenAI Chat Completions.
pub mod Parts
pub mod Tools
pub mod Request
pub mod Usage
pub mod Response
pub mod Chunk
pub mod Message
