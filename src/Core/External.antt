-- ===== src/Core/External.antt =====
-- What crates/core takes from other crates: the sparse Merkle tree of `monotree`, the decoding of
-- accounts by `bincode`, the order in which a `HashMap` is iterated, and the texts of `{:?}`.
use tiny_sp1_rollup.Base.{Bool, List, String, Option, Outcome}
use tiny_sp1_rollup.Base.Bytes.{Bytes}
use tiny_sp1_rollup.Stf.Digest.{Hash}
use tiny_sp1_rollup.Stf.Account.{Account}
use tiny_sp1_rollup.Stf.Types.{StfError}

-- `Monotree<RocksDB, Sha3>`. An error is the text of its `{:?}`. A read leaves the tree as later
-- reads see it.
pub record StateTree : Type 1 where
  pub Tree : Type 0
  pub get : Tree → Option Hash → Hash → Outcome String (Option Bytes)
  pub get_merkle_proof : Tree → Option Hash → Hash → Outcome String (Option (List (Bool × Bytes)))
  pub inserts : Tree → Option Hash → List Hash → List Hash → Tree × Outcome String (Option Hash)

-- `bincode::deserialize::<Account>`, and the text of a `StfError`.
pub record Codec : Type 0 where
  pub deserialize : Bytes → Option Account
  pub debug : StfError → String
