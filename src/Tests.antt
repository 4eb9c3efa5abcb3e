-- ===== src/Tests.antt =====
-- Runs of the theorems at concrete inputs.
mod Sample
mod Records
mod Migration
mod Audit
mod Config
mod Network
mod Users
mod Wallet
mod Mnemonic
mod Hex
mod Hashes
mod Addresses
mod Building
mod Batch
mod Storage
mod Checks
