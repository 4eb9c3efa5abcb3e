-- ===== src/Wallet.antt =====
-- The crate tools/wallet: the derivation of keys, the wallet that holds them and its mnemonic.
pub mod KeyFactory
pub mod Library
pub mod Mnemonic
