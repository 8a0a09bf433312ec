-- ===== src/Sequencer/Prove.antt =====
-- `process_and_prove_batch`, `submit_proof_to_l1` and the loop over the retries in
-- `prover_worker_loop` of crates/sequencer/src/main.rs. What the SP1 prover returns and how the
-- transaction to L1 fares are those of an attempt; printing and the waits are left out.
pub mod Settled
pub mod Blocks
pub mod Round
pub mod Poisoned
pub mod Stalled
pub mod Retries
pub mod Progress
use tiny_sp1_rollup.Base.{
  ℕ, zero, suc, ◌+◌, Bool, true, false, List, String, Option, Outcome, ok, err, panic, ◌>>=◌, ◌>>◌,
  guard, ok_or, map_err, map_ok, leb,
}
use tiny_sp1_rollup.Base.Bytes.{Bytes, bytes_eq}
use tiny_sp1_rollup.Stf.Digest.{Hash, Digest}
use tiny_sp1_rollup.Stf.Types.{Transaction, Deposit, ForcedTx}
use tiny_sp1_rollup.Stf.Commitment.{Abi, PublicValues}
use tiny_sp1_rollup.Stf.Transition.{Proofs}
use tiny_sp1_rollup.Contract.{Contract, Gateway, update_state}
use tiny_sp1_rollup.Core.Block.{PendingBlock}
use tiny_sp1_rollup.Core.Error.{CoreError}
use tiny_sp1_rollup.Core.External.{StateTree, Codec}
use tiny_sp1_rollup.Core.Prover.{ProofBundle, generate_proofs_for_block}
use tiny_sp1_rollup.Core.Prover.Bundle.{written}

-- The errors that `anyhow` erases.
pub data ProveError : Type 0 where
  state_lock_poisoned join_error decode_error root_mismatch : ProveError
  core : CoreError → ProveError
  prove_error submit_error : String → ProveError

-- The transaction to L1: it is not included, it is included and its receipt arrives, or it is
-- included and `get_receipt` fails.
pub data Delivery : Type 0 where
  undelivered delivered receipt_lost : Delivery

-- What the world gives to one attempt: public values and proof bytes, and the delivery.
pub record Attempt : Type 0 where
  pub prove :
      Hash
      → List Transaction
      → List Deposit
      → List ForcedTx
      → Proofs
      → Outcome String (Bytes × Bytes)
  pub delivery : Delivery

-- What the prover's worker reads and writes: the tree and whether its mutex is poisoned, the
-- proven head, and the contract.
pub record ProverState (Tree : Type 0) : Type 0 where
  pub tree : Tree
  pub poisoned : Bool
  pub proven : Hash
  pub contract : Contract

-- `lock()` and the call under it, in `spawn_blocking(…).await??`: a panic poisons the mutex and is
-- a `JoinError`.
abbrev pub locked : {A : Type 0} → Bool → Outcome CoreError A → Bool × Outcome ProveError A
locked true result = (true, err state_lock_poisoned)
locked false (ok a) = (false, ok a)
locked false (err e) = (false, err (core e))
locked false panic = (true, err join_error)

-- A transaction that reverts leaves the contract.
abbrev pub included : Contract → Outcome String Contract → Contract × Outcome ProveError (Unit {0})
included c (ok c') = (c', ok tt)
included c (err e) = (c, err (submit_error "submit_proof_to_l1 tx reverted"))
included c panic = (c, err (submit_error "submit_proof_to_l1 tx reverted"))

-- `submit_proof_to_l1`, from what `updateState` does
abbrev pub submit_proof_to_l1 :
    Delivery → Contract → Outcome String Contract → Contract × Outcome ProveError (Unit {0})
submit_proof_to_l1 undelivered c updated = (c, err (submit_error "submit_proof_to_l1 send err"))
submit_proof_to_l1 delivered c updated = included c updated
submit_proof_to_l1 receipt_lost c updated =
    ((included c updated).0, err (submit_error "submit_proof_to_l1 get_receipt err"))

-- `if state.config.l1.enabled { submit… }`
abbrev pub submitted :
    Bool → Delivery → Contract → Outcome String Contract → Contract × Outcome ProveError (Unit {0})
submitted true sent c updated = submit_proof_to_l1 sent c updated
submitted false sent c updated = (c, ok tt)

-- The proven head is written after a submission that succeeds.
abbrev pub head_written :
    {Tree : Type 0}
    → ProverState Tree
    → Hash
    → Contract × Outcome ProveError (Unit {0})
    → ProverState Tree × Outcome ProveError (Unit {0})
head_written s post_state_root (c, ok u) =
    (record s { contract = c; proven = post_state_root }, ok tt)
head_written s post_state_root (c, err e) = (record s { contract = c }, err e)
head_written s post_state_root (c, panic) = (record s { contract = c }, panic)

module _ (sha3 keccak : Digest) (abi : Abi) (gateway : Gateway) (db : StateTree) (codec : Codec)
    (decode : Bytes → Option PublicValues) (l1_enabled : Bool) where
  -- From the proofs to the public values, the proof's bytes and the root, before the submission.
  unfoldable pub proved :
      Attempt
      → PendingBlock
      → Outcome ProveError ProofBundle
      → Outcome ProveError (Bytes × Bytes × Hash)
  proved attempt block proofs = do
    bundle ← proofs
    (public_values, proof) ← map_err prove_error (
        attempt.prove block.pre_state_root block.txs block.deposits block.forced_txs
          (written bundle))
    values ← ok_or (decode public_values) decode_error
    guard (bytes_eq values.post_state_root block.post_state_root) root_mismatch
    ok (public_values, proof, values.post_state_root)

  -- The submission and the write of the proven head.
  unfoldable pub finish :
      Attempt
      → Outcome ProveError (Bytes × Bytes × Hash)
      → ProverState db.Tree
      → ProverState db.Tree × Outcome ProveError (Unit {0})
  finish attempt (ok (public_values, proof, post_state_root)) s = head_written s post_state_root (
      submitted l1_enabled attempt.delivery s.contract
        (update_state keccak abi gateway s.contract public_values proof))
  finish attempt (err e) s = (s, err e)
  finish attempt panic s = (s, panic)

  unfoldable pub process_and_prove_batch :
      Attempt
      → PendingBlock
      → ProverState db.Tree
      → ProverState db.Tree × Outcome ProveError (Unit {0})
  unfolding proved finish
  process_and_prove_batch attempt block s =
      let (poisoned, proofs) =
        locked s.poisoned (generate_proofs_for_block sha3 db codec s.tree block) in
      finish attempt (proved attempt block proofs) (record s { poisoned = poisoned })
