-- ===== src/Core/Block.antt =====
-- crates/core/src/types.rs and crates/core/src/utils.rs
use tiny_sp1_rollup.Base.{ℕ, List, ◌++◌, replicate, ◌≡◌, refl, drop, length, arith}
use tiny_sp1_rollup.Base.Bytes.{Bytes}
use tiny_sp1_rollup.Stf.Digest.{Hash, IsHash}
use tiny_sp1_rollup.Stf.Types.{Transaction, Deposit, ForcedTx}

pub record PendingBlock : Type 0 where
  pub block_number : ℕ
  pub txs : List Transaction
  pub deposits : List Deposit
  pub forced_txs : List ForcedTx
  pub pre_state_root : Hash
  pub post_state_root : Hash

-- `hash[12..].copy_from_slice(addr)` on 32 zero bytes; an address has 20 bytes
unfoldable pub address_to_hash : Bytes → Hash
address_to_hash addr = replicate 12 0 ++ addr

-- The hash of an address of 20 bytes has 32 bytes, and bytes 12 to 31 of it, which `hash_deposits`
-- reads back, are the address.
pub drop-address_to_hash :
    (addr : Bytes)
    → length addr ≡ 20
    → IsHash (address_to_hash addr) × (drop 12 (address_to_hash addr) ≡ addr)
unfolding address_to_hash
drop-address_to_hash addr h = (omega arith, refl)
