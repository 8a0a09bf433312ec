-- ===== src/Stf.antt =====
-- The crate crates/stf: the state transition function that every other crate uses.
pub mod Digest
pub mod Account
pub mod Types
pub mod Apply
pub mod Merkle
pub mod Commitment
pub mod Transition
