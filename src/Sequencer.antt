-- ===== src/Sequencer.antt =====
-- The crate crates/sequencer: the optimistic execution of a batch, the store of the blocks to prove,
-- their proving, the configuration and the start.
pub mod Error
pub mod Batch
pub mod Config
pub mod Queue
pub mod L1
pub mod Prove
pub mod Worker
pub mod Launch
