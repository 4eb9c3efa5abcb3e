-- ===== src/Txs.antt =====
-- The crate tools/txs: the proposals of a community wallet that are sent in a batch.
pub mod Batch
