-- ===== src/Genesis.antt =====
-- The crate tools/genesis: what the migration does to the recovery file before it writes a genesis.
pub mod ParseJson
pub mod Supply
pub mod BTreeMap
pub mod CommWallet
pub mod Compare
pub mod Session
pub mod Functions
pub mod Users
pub mod Encode
pub mod Registration
pub mod Build
