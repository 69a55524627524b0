-- ===== src/Protocol/Gemini.antt =====
-- src/protocol/gemini.rs: the adapter of Gemini generateContent.
pub mod Parts
pub mod Usage
pub mod Contents
pub mod Request
pub mod Body
pub mod Response
pub mod Stream
