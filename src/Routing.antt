-- ===== src/Routing.antt =====
-- src/routing/mod.rs: the choice of an upstream for a request.
pub mod Pattern
pub mod Breaker
pub mod Select
pub mod Sticky
