-- ===== src/Core.antt =====
-- The crate crates/core: reads of the state tree, the block executor and the proofs of a block.
pub mod Error
pub mod Block
pub mod External
pub mod Reads
pub mod Cache
pub mod Executor
pub mod Prover
