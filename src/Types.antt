-- ===== src/Types.antt =====
-- The crate types: on-chain resources, the configuration of the tools, playlists and pledges.
pub mod Resources
pub mod Coin
pub mod Pledge
pub mod Profile
pub mod Playlist
pub mod TxConfigs
pub mod AppCfg
