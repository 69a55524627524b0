-- ===== src/Gateway.antt =====
-- src/gateway.rs: the main path of a request.
pub mod Candidates
pub mod Failover
pub mod Request
pub mod Admission
