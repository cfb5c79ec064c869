-- ===== src/Core.antt =====
-- The crate membrane-core: the data that the gate signs and hashes, and the session chain.
pub mod Value
pub mod Event
pub mod Iac
pub mod Canonical
pub mod External
pub mod Hash
pub mod Merkle
pub mod Rollup
pub mod Session
pub mod Signature
pub mod Caller
pub mod Reissue
pub mod Siem
