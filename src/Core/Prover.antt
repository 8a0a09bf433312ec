-- ===== src/Core/Prover.antt =====
-- `ProofBundle` and `generate_proofs_for_block` of crates/core/src/lib.rs, one function for the
-- rounds of each of its three loops. The two vectors of proofs that a loop pushes to are one list
-- of pairs until it ends. Reads leave the tree as it is, and printing is left out.
pub mod Bundle
pub mod Deposits
pub mod Replay
pub mod Agree
pub mod Idle
pub mod Hashes
pub mod Refused
pub mod Provable
use tiny_sp1_rollup.Base.{
  Bool, true, false, List, [], ◌∷◌, map, some, Outcome, ok, err, panic, ◌>>=◌, map_err, for_push,
  if◌then◌else◌,
}
use tiny_sp1_rollup.Base.Bytes.{bytes_eq}
use tiny_sp1_rollup.Stf.Digest.{Hash, Digest, default}
use tiny_sp1_rollup.Stf.Account
use tiny_sp1_rollup.Stf.Account.{Account}
use tiny_sp1_rollup.Stf.Types.{
  StfError, balance_overflow, TransactionResult, success, failure, Transaction, Deposit, ForcedTx,
}
use tiny_sp1_rollup.Stf.Apply.{apply_deposit, apply_transaction, apply_forced_tx}
use tiny_sp1_rollup.Stf.Merkle.{MerkleProof, compute_new_root}
use tiny_sp1_rollup.Core.Error.{CoreError, stf_error}
use tiny_sp1_rollup.Core.Block.{PendingBlock}
use tiny_sp1_rollup.Core.External.{StateTree, Codec}
use tiny_sp1_rollup.Core.Reads.{get_account, build_stf_proof}

pub record ProofBundle : Type 0 where
  pub proofs_deposits : List MerkleProof
  pub proofs_forced_from : List MerkleProof
  pub proofs_forced_to : List MerkleProof
  pub proofs_txs_from : List MerkleProof
  pub proofs_txs_to : List MerkleProof

-- The proofs of a sender and of a recipient.
abbrev pub ProofPair : Type 0
ProofPair = MerkleProof × MerkleProof

-- `MerkleProof { account: Account::new(key), siblings: vec![] }`
abbrev pub dummy_proof : Hash → MerkleProof
dummy_proof key = record { account = Account.new key; siblings = [] }

-- `.is_err()`
abbrev pub is_err : {E F A : Type 0} → Outcome E A → Outcome F Bool
is_err (ok a) = ok false
is_err (err e) = ok true
is_err panic = panic

module _ (sha3 : Digest) where
  -- The `match` on the result of `stf::apply_deposit`; its last arm is `unreachable!`.
  unfoldable pub root_after_deposit :
      Hash → MerkleProof → Outcome StfError Account → Outcome CoreError Hash
  root_after_deposit current_root proof (ok updated) =
      ok (compute_new_root sha3 proof (Account.hash sha3 updated))
  root_after_deposit current_root proof (err balance_overflow) = ok current_root
  root_after_deposit current_root proof (err e) = panic
  root_after_deposit current_root proof panic = panic

  module _ (db : StateTree) (codec : Codec) (tree : db.Tree) where
    -- One round of the loop over the deposits.
    unfoldable pub prove_deposit : Hash → Deposit → Outcome CoreError (Hash × MerkleProof)
    unfolding root_after_deposit
    prove_deposit current_root dep = do
      proof ← build_stf_proof db codec tree current_root dep.to
      next_root ← root_after_deposit current_root proof (apply_deposit proof.account dep)
      ok (next_root, proof)

    -- The `match` on the result of a transaction, the same in both loops.
    unfoldable pub prove_result :
        Hash → MerkleProof → MerkleProof → TransactionResult → Outcome CoreError (Hash × ProofPair)
    prove_result to proof_from proof_to (success updated_from updated_to) = do
      let root = compute_new_root sha3 proof_from (Account.hash sha3 updated_from)
      proof_to_after_from ← build_stf_proof db codec tree root to
      ok (
        compute_new_root sha3 proof_to_after_from (Account.hash sha3 updated_to),
        (proof_from, proof_to_after_from),
      )
    prove_result to proof_from proof_to (failure updated_from) =
        ok (
          compute_new_root sha3 proof_from (Account.hash sha3 updated_from),
          (proof_from, proof_to),
        )

    -- One round of the loop over the forced transactions.
    unfoldable pub prove_forced : Hash → ForcedTx → Outcome CoreError (Hash × ProofPair)
    unfolding prove_result
    prove_forced current_root tx =
        if bytes_eq tx.from default
        then ok (current_root, (dummy_proof tx.from, dummy_proof tx.to))
        else do
          proof_from ← build_stf_proof db codec tree current_root tx.from
          proof_to ← build_stf_proof db codec tree current_root tx.to
          result ←
              map_err (λ e. stf_error (codec.debug e))
                (apply_forced_tx proof_from.account proof_to.account tx)
          prove_result tx.to proof_from proof_to result

    -- One round of the loop over the transactions.
    unfoldable pub prove_tx : Hash → Transaction → Outcome CoreError (Hash × ProofPair)
    unfolding prove_result
    prove_tx current_root tx = do
      absent ← is_err (get_account db codec tree (some current_root) tx.from)
      if absent then ok (current_root, (dummy_proof tx.from, dummy_proof tx.to)) else do
        proof_from ← build_stf_proof db codec tree current_root tx.from
        proof_to ← build_stf_proof db codec tree current_root tx.to
        result ←
            map_err (λ e. stf_error (codec.debug e))
              (apply_transaction proof_from.account proof_to.account tx)
        prove_result tx.to proof_from proof_to result

    unfoldable pub generate_proofs_for_block : PendingBlock → Outcome CoreError ProofBundle
    unfolding prove_deposit prove_forced prove_tx for_push
    generate_proofs_for_block block = do
      (after_deposits, deposits) ← for_push prove_deposit block.pre_state_root block.deposits
      (after_forced, forced) ← for_push prove_forced after_deposits block.forced_txs
      (current_root, txs) ← for_push prove_tx after_forced block.txs
      if bytes_eq current_root block.post_state_root
          then ok (record {
            proofs_deposits = deposits;
            proofs_forced_from = map (λ (p : ProofPair). p.0) forced;
            proofs_forced_to = map (λ (p : ProofPair). p.1) forced;
            proofs_txs_from = map (λ (p : ProofPair). p.0) txs;
            proofs_txs_to = map (λ (p : ProofPair). p.1) txs;
          })
          else panic
