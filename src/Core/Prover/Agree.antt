-- ===== src/Core/Prover/Agree.antt =====
-- The bundle of `generate_proofs_for_block` (crates/core/src/lib.rs) in `execute_transition`
-- (crates/stf/src/lib.rs), on a block whose reads open their roots.
use tiny_sp1_rollup.Base.{
  ◌≡◌, refl, ◌∙◌, List, ◌∷◌, map, arith, ok, for_push, for_enumerate, for_enumerate_shift,
}
use tiny_sp1_rollup.Base.Bytes.{bytes_eq_refl}
use tiny_sp1_rollup.Stf.Digest.{Hash, Digest}
use tiny_sp1_rollup.Stf.Account
use tiny_sp1_rollup.Stf.Account.{Account}
use tiny_sp1_rollup.Stf.Types.{failure, Transaction, Deposit, ForcedTx}
use tiny_sp1_rollup.Stf.Apply.{apply_transaction, apply_forced_tx}
use tiny_sp1_rollup.Stf.Commitment.{Abi, hash_deposits, hash_forced_txs}
use tiny_sp1_rollup.Stf.Merkle.{MerkleProof}
use tiny_sp1_rollup.Stf.Transition.{
  deposit_round, settle, forced_round, tx_round, execute_transition,
}
use tiny_sp1_rollup.Stf.Transition.Honest.{shift_txs, shift_forced}
use tiny_sp1_rollup.Core.Block.{PendingBlock}
use tiny_sp1_rollup.Core.External.{StateTree, Codec}
use tiny_sp1_rollup.Core.Prover.{
  ProofBundle, ProofPair, dummy_proof, prove_deposit, prove_result, prove_forced, prove_tx,
  generate_proofs_for_block, root_after_deposit,
}
use tiny_sp1_rollup.Core.Prover.Bundle.{written, bundle_of}
use tiny_sp1_rollup.Core.Prover.Replay.{DepositReplay, TxReplay, ForcedReplay}

-- A failed transaction does not depend on its recipient.
failure-recipient :
    (a b c f : Account) (tx : Transaction)
    → apply_transaction a b tx ≡ ok (failure f)
    → apply_transaction a c tx ≡ ok (failure f)
unfolding apply_transaction
failure-recipient a b c f tx e = ground arith

forced_failure-recipient :
    (a b c f : Account) (tx : ForcedTx)
    → apply_forced_tx a b tx ≡ ok (failure f)
    → apply_forced_tx a c tx ≡ ok (failure f)
unfolding apply_forced_tx
forced_failure-recipient a b c f tx e = ground arith

module _ (sha3 : Digest) (db : StateTree) (codec : Codec) (tree : db.Tree) where
  deposits_generated :
      {r u : Hash} {ds : List Deposit} {ps : List MerkleProof}
      → DepositReplay sha3 db codec tree r ds ps u
      → for_push (prove_deposit sha3 db codec tree) r ds ≡ ok (u, ps)
  unfolding for_push prove_deposit root_after_deposit
  deposits_generated DepositReplay.done = refl
  deposits_generated (DepositReplay.credit d p a opens e rest) =
      rw (opens.built, e, deposits_generated rest)

  deposits_executed :
      {r u : Hash} {ds : List Deposit} {ps : List MerkleProof}
      → DepositReplay sha3 db codec tree r ds ps u
      → for_enumerate (deposit_round sha3 ps) 0 ds r ≡ ok u
  unfolding for_enumerate deposit_round
  deposits_executed DepositReplay.done = refl
  deposits_executed (DepositReplay.credit {ds = ds} {ps = ps} d p a opens e rest) =
      rw (opens.verified, e)
        (for_enumerate_shift (deposit_round sha3 (p ∷ ps)) (deposit_round sha3 ps) (λ i x s. refl) 0
            ds _
          ∙ deposits_executed rest)

  txs_generated :
      {r u : Hash} {txs : List Transaction} {ps : List ProofPair}
      → TxReplay sha3 db codec tree r txs ps u
      → for_push (prove_tx sha3 db codec tree) r txs ≡ ok (u, ps)
  unfolding for_push prove_tx prove_result
  txs_generated TxReplay.done = refl
  txs_generated (TxReplay.paid tx p b q sender a' b' sent op built new e oq rest) =
      rw (sent, op.built, built, new, e, oq.built, txs_generated rest)
  txs_generated (TxReplay.failed tx p b sender a' sent op built e rest) =
      rw (sent, op.built, built, e, txs_generated rest)

  forced_generated :
      {r u : Hash} {txs : List ForcedTx} {ps : List ProofPair}
      → ForcedReplay sha3 db codec tree r txs ps u
      → for_push (prove_forced sha3 db codec tree) r txs ≡ ok (u, ps)
  unfolding for_push prove_forced prove_result
  forced_generated ForcedReplay.done = refl
  forced_generated (ForcedReplay.skipped tx dummy rest) = rw (dummy, forced_generated rest)
  forced_generated (ForcedReplay.paid tx p b q a' b' live op built new e oq rest) =
      rw (live, op.built, built, new, e, oq.built, forced_generated rest)
  forced_generated (ForcedReplay.failed tx p b a' live op built e rest) =
      rw (live, op.built, built, e, forced_generated rest)

  -- The vectors of the senders' and of the recipients' proofs.
  abbrev froms : List ProofPair → List MerkleProof
  froms = map (λ (p : ProofPair). p.0)

  abbrev tos : List ProofPair → List MerkleProof
  tos = map (λ (p : ProofPair). p.1)

  txs_executed :
      {r u : Hash} {txs : List Transaction} {ps : List ProofPair}
      → TxReplay sha3 db codec tree r txs ps u
      → for_enumerate (tx_round sha3 (froms ps) (tos ps)) 0 txs r ≡ ok u
  unfolding for_enumerate tx_round settle
  txs_executed TxReplay.done = refl
  txs_executed
        (TxReplay.paid {txs = txs} {ps = ps} tx p b q sender a' b' sent op built new e oq rest) =
      rw (op.verified, e, oq.verified)
        (shift_txs sha3 p q (froms ps) (tos ps) txs _ ∙ txs_executed rest)
  txs_executed (TxReplay.failed {txs = txs} {ps = ps} tx p b sender a' sent op built e rest) =
      rw (op.verified, failure-recipient p.account b.account (Account.new tx.to) a' tx e)
        (shift_txs sha3 p b (froms ps) (tos ps) txs _ ∙ txs_executed rest)

  forced_executed :
      {r u : Hash} {txs : List ForcedTx} {ps : List ProofPair}
      → ForcedReplay sha3 db codec tree r txs ps u
      → for_enumerate (forced_round sha3 (froms ps) (tos ps)) 0 txs r ≡ ok u
  unfolding for_enumerate forced_round settle
  forced_executed ForcedReplay.done = refl
  forced_executed (ForcedReplay.skipped {txs = txs} {ps = ps} tx dummy rest) = rw dummy (
      shift_forced sha3 (dummy_proof tx.from) (dummy_proof tx.to) (froms ps) (tos ps) txs _
      ∙ forced_executed rest)
  forced_executed
        (ForcedReplay.paid {txs = txs} {ps = ps} tx p b q a' b' live op built new e oq rest) =
      rw (live, op.verified, e, oq.verified)
        (shift_forced sha3 p q (froms ps) (tos ps) txs _ ∙ forced_executed rest)
  forced_executed (ForcedReplay.failed {txs = txs} {ps = ps} tx p b a' live op built e rest) =
      rw
        (
          live,
          op.verified,
          forced_failure-recipient p.account b.account (Account.new tx.to) a' tx e,
        )
        (shift_forced sha3 p b (froms ps) (tos ps) txs _ ∙ forced_executed rest)

  -- A block whose reads open their roots, from its pre-state root to its post-state root.
  pub record BlockReplay (block : PendingBlock) (bundle : ProofBundle) : Type 0 where
    pub after_deposits : Hash
    pub after_forced : Hash
    pub deposits : List MerkleProof
    pub forced : List ProofPair
    pub txs : List ProofPair
    pub deposit_replay :
        DepositReplay sha3 db codec tree block.pre_state_root block.deposits deposits after_deposits
    pub forced_replay :
        ForcedReplay sha3 db codec tree after_deposits block.forced_txs forced after_forced
    pub tx_replay : TxReplay sha3 db codec tree after_forced block.txs txs block.post_state_root
    pub bundle-eq : bundle ≡ bundle_of deposits forced txs

  generated :
      (block : PendingBlock) (bundle : ProofBundle)
      → BlockReplay block bundle
      → generate_proofs_for_block sha3 db codec tree block ≡ ok bundle
  unfolding generate_proofs_for_block
  generated block bundle run = rw (
    deposits_generated run.deposit_replay,
    forced_generated run.forced_replay,
    txs_generated run.tx_replay,
    bytes_eq_refl block.post_state_root,
    run.bundle-eq,
  )

  -- The pipeline from the sequencer's proofs to the guest. On a block whose reads all open the root
  -- at hand, whose payments go to accounts that read as new, whose senders are in the tree and
  -- whose operations lead from its pre-state root to its post-state root, proof generation returns
  -- the bundle of those reads, and the guest, given this bundle, fails at no check and returns the
  -- block's post-state root with the hashes of its deposits and forced transactions.
  pub generated_bundle_accepted :
      (keccak : Digest) (abi : Abi) (block : PendingBlock) (bundle : ProofBundle)
      → BlockReplay block bundle
      → (generate_proofs_for_block sha3 db codec tree block ≡ ok bundle)
        × (execute_transition sha3 keccak abi block.pre_state_root block.txs block.deposits
              block.forced_txs
              (written bundle)
            ≡ ok (
              block.post_state_root,
              hash_deposits keccak abi block.deposits,
              hash_forced_txs keccak abi block.forced_txs,
            ))
  unfolding execute_transition
  generated_bundle_accepted keccak abi block bundle run = (
    generated block bundle run,
    rw (
      run.bundle-eq,
      deposits_executed run.deposit_replay,
      forced_executed run.forced_replay,
      txs_executed run.tx_replay,
    ),
  )
