-- ===== src/Stf/Transition.antt =====
-- `StateTransitioner::execute_transition` of crates/stf/src/lib.rs, one function for the rounds of
-- each of its three loops. An index out of the bounds of a list of proofs is a panic.
pub mod Runs
pub mod Honest
pub mod Bounds
pub mod Unbound
use tiny_sp1_rollup.Base.{
  ℕ, List, get_elem?, Outcome, ok, ◌>>=◌, ◌>>◌, guard, unwrap, if◌then◌else◌, for_enumerate,
}
use tiny_sp1_rollup.Base.Bytes.{bytes_eq}
use tiny_sp1_rollup.Stf.Digest.{Hash, Digest, default}
use tiny_sp1_rollup.Stf.Account
use tiny_sp1_rollup.Stf.Account.{Account}
use tiny_sp1_rollup.Stf.Types.{
  StfError, merkle_proof_verification_failed, TransactionResult, success, failure, Transaction,
  Deposit, ForcedTx,
}
use tiny_sp1_rollup.Stf.Apply.{apply_deposit, apply_transaction, apply_forced_tx}
use tiny_sp1_rollup.Stf.Merkle.{MerkleProof, compute_new_root, verify}
use tiny_sp1_rollup.Stf.Commitment.{Abi, hash_deposits, hash_forced_txs}

-- The five vectors of proofs.
pub record Proofs : Type 0 where
  pub deposits : List MerkleProof
  pub forced_from : List MerkleProof
  pub forced_to : List MerkleProof
  pub txs_from : List MerkleProof
  pub txs_to : List MerkleProof

module _ (sha3 : Digest) where
  -- `if !proof.verify(root) { return Err(MerkleProofVerificationFailed) }`
  abbrev pub check : MerkleProof → Hash → Outcome StfError (Unit {0})
  check proof root = guard (verify sha3 proof root) merkle_proof_verification_failed

  -- One round of the loop over the deposits.
  unfoldable pub deposit_round : List MerkleProof → ℕ → Deposit → Hash → Outcome StfError Hash
  deposit_round proofs i dep current_root = do
    proof_to ← unwrap (get_elem? proofs i)
    check proof_to current_root
    updated ← apply_deposit proof_to.account dep
    ok (compute_new_root sha3 proof_to (Account.hash sha3 updated))

  -- The `match` on the result of a transaction, the same in both loops.
  unfoldable pub settle :
      MerkleProof → List MerkleProof → ℕ → TransactionResult → Outcome StfError Hash
  settle proof_from proofs_to i (success updated_from updated_to) = do
    let root = compute_new_root sha3 proof_from (Account.hash sha3 updated_from)
    proof_to ← unwrap (get_elem? proofs_to i)
    check proof_to root
    ok (compute_new_root sha3 proof_to (Account.hash sha3 updated_to))
  settle proof_from proofs_to i (failure updated_from) =
      ok (compute_new_root sha3 proof_from (Account.hash sha3 updated_from))

  -- One round of the loop over the forced transactions.
  unfoldable pub forced_round :
      List MerkleProof → List MerkleProof → ℕ → ForcedTx → Hash → Outcome StfError Hash
  unfolding settle
  forced_round proofs_from proofs_to i tx current_root =
      if bytes_eq tx.from default then ok current_root else do
        proof_from ← unwrap (get_elem? proofs_from i)
        check proof_from current_root
        result ← apply_forced_tx proof_from.account (Account.new tx.to) tx
        settle proof_from proofs_to i result

  -- One round of the loop over the transactions.
  unfoldable pub tx_round :
      List MerkleProof → List MerkleProof → ℕ → Transaction → Hash → Outcome StfError Hash
  unfolding settle
  tx_round proofs_from proofs_to i tx current_root = do
    proof_from ← unwrap (get_elem? proofs_from i)
    check proof_from current_root
    result ← apply_transaction proof_from.account (Account.new tx.to) tx
    settle proof_from proofs_to i result

module _ (sha3 keccak : Digest) (abi : Abi) where
  unfoldable pub execute_transition :
      Hash
      → List Transaction
      → List Deposit
      → List ForcedTx
      → Proofs
      → Outcome StfError (Hash × Hash × Hash)
  unfolding deposit_round forced_round tx_round for_enumerate
  execute_transition pre_state_root txs deposits forced_txs proofs = do
    let deposits_hash = hash_deposits keccak abi deposits
    let forced_txs_hash = hash_forced_txs keccak abi forced_txs
    after_deposits ← for_enumerate (deposit_round sha3 proofs.deposits) 0 deposits pre_state_root
    after_forced ←
        for_enumerate (forced_round sha3 proofs.forced_from proofs.forced_to) 0 forced_txs
          after_deposits
    current_root ← for_enumerate (tx_round sha3 proofs.txs_from proofs.txs_to) 0 txs after_forced
    ok (current_root, deposits_hash, forced_txs_hash)
