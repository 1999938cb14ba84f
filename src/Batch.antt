-- ===== src/Batch.antt =====
-- executor/batchsubmitter and executor/types/batch.go: the blocks of the rollup, collected in a file and
-- submitted to the data availability layer.
pub mod Data
pub mod Info
pub mod Submitter
pub mod Store
pub mod Block
