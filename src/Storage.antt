-- ===== src/Storage.antt =====
-- The crate tools/storage: the restore of a database from the archives of an epoch.
pub mod RestoreBundle
