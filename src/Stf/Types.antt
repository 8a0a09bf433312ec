-- ===== src/Stf/Types.antt =====
-- The errors, results and operations of crates/stf/src/lib.rs.
use tiny_sp1_rollup.Base.{ℕ, String}
use tiny_sp1_rollup.Base.Bytes.{Bytes}
use tiny_sp1_rollup.Stf.Digest.{Hash}
use tiny_sp1_rollup.Stf.Account.{Account}

pub data StfError : Type 0 where
  insufficient_balance : StfError
  balance_overflow : StfError
  merkle_proof_verification_failed : StfError
  -- expected, got
  invalid_nonce : ℕ → ℕ → StfError
  invalid_transaction : String → StfError

-- `failure` holds the sender after the nonce and the fee.
pub data TransactionResult : Type 0 where
  success : Account → Account → TransactionResult
  failure : Account → TransactionResult

pub record Transaction : Type 0 where
  pub from : Hash
  pub to : Hash
  pub nonce : ℕ
  pub fee : ℕ
  pub amount : ℕ

pub record Deposit : Type 0 where
  pub to : Hash
  pub amount : ℕ
  pub timestamp : ℕ

pub record ForcedTx : Type 0 where
  pub from : Hash
  pub to : Hash
  pub nonce : ℕ
  pub fee : ℕ
  pub amount : ℕ
  pub timestamp : ℕ
  pub l2_calldata : Bytes
