-- ===== src/Stf/Commitment.antt =====
-- `build_commitment`, `hash_deposits`, `hash_forced_txs` and the `sol!` structures of
-- crates/stf/src/lib.rs. `Keccak256` and the ABI encodings, which alloy generates, are parameters.
pub mod Decode
pub mod Layout
use tiny_sp1_rollup.Base.{ℕ, List, [], ◌∷◌, ◌++◌, take, drop}
use tiny_sp1_rollup.Base.Bytes.{Bytes, to_be_bytes}
use tiny_sp1_rollup.Stf.Digest.{Hash, Digest}
use tiny_sp1_rollup.Stf.Types.{Deposit, ForcedTx}

pub record PublicValues : Type 0 where
  pub pre_state_root : Hash
  pub post_state_root : Hash
  pub deposits_commitment : Hash
  pub forced_txs_commitment : Hash

pub record DepositL1 : Type 0 where
  -- an address, of 20 bytes
  pub user : Bytes
  pub amount : ℕ
  pub timestamp : ℕ

pub record ForcedTransactionL1 : Type 0 where
  pub calldata : Bytes
  pub timestamp : ℕ

-- `abi_encode` of the three structures.
pub record Abi : Type 0 where
  pub encode_deposit : DepositL1 → Bytes
  pub encode_forced : ForcedTransactionL1 → Bytes
  pub encode_public_values : PublicValues → Bytes

-- The first 28 bytes of a hash, and a count of 4 bytes.
unfoldable pub build_commitment : Hash → ℕ → Hash
build_commitment hash count = take 28 hash ++ to_be_bytes 4 count

-- The structure that `hash_deposits` encodes: the address is `to[12..]`.
abbrev pub deposit_l1 : Deposit → DepositL1
deposit_l1 item = record {
  user = drop 12 item.to;
  amount = item.amount;
  timestamp = item.timestamp;
}

abbrev pub forced_transaction_l1 : ForcedTx → ForcedTransactionL1
forced_transaction_l1 item = record { calldata = item.l2_calldata; timestamp = item.timestamp }

module _ (keccak : Digest) (abi : Abi) where
  -- the vector `item_hashes` after the loop of `hash_deposits`
  unfoldable pub deposit_item_hashes : List Deposit → Bytes
  deposit_item_hashes [] = []
  deposit_item_hashes (item ∷ items) =
      keccak.digest (abi.encode_deposit (deposit_l1 item)) ++ deposit_item_hashes items

  unfoldable pub hash_deposits : List Deposit → Hash
  unfolding deposit_item_hashes
  hash_deposits [] = keccak.digest []
  hash_deposits (item ∷ items) = keccak.digest (deposit_item_hashes (item ∷ items))

  -- the vector `item_hashes` after the loop of `hash_forced_txs`
  unfoldable pub forced_item_hashes : List ForcedTx → Bytes
  forced_item_hashes [] = []
  forced_item_hashes (item ∷ items) =
      keccak.digest (abi.encode_forced (forced_transaction_l1 item)) ++ forced_item_hashes items

  unfoldable pub hash_forced_txs : List ForcedTx → Hash
  unfolding forced_item_hashes
  hash_forced_txs [] = keccak.digest []
  hash_forced_txs (item ∷ items) = keccak.digest (forced_item_hashes (item ∷ items))
