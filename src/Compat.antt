-- ===== src/Compat.antt =====
-- The crate compatibility: accounts, hashes, addresses and keys of events of earlier versions.
pub mod LegacyRecovery
pub mod Hex
pub mod HashValue
pub mod LegacyAddress
pub mod EventKey
