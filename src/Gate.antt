-- ===== src/Gate.antt =====
-- The crate membrane-gate: authorization, the operation journal and the request handlers.
pub mod Error
pub mod Registry
pub mod Iac
pub mod Liveness
pub mod Identity
pub mod Github
pub mod Operations
pub mod Heartbeat
pub mod Alarm
pub mod Audit
pub mod Siem
pub mod Server
