-- ===== src/Core/Prover/Provable.antt =====
-- Which blocks the rollup can prove: those for which `generate_proofs_for_block`
-- (crates/core/src/lib.rs) returns a bundle and `execute_transition` (crates/stf/src/lib.rs) takes it,
-- over a tree that stores 32-byte hashes, as `monotree` does.
use tiny_sp1_rollup.Base.{◌≡◌, ◌↔◌, ap, sym, ◌∙◌, List, All, ok, for_push, for_enumerate, bind_inv}
use tiny_sp1_rollup.Base.Bytes.{bytes_eq_iff}
use tiny_sp1_rollup.Stf.Digest.{Hash, Digest}
use tiny_sp1_rollup.Stf.Types.{Transaction, Deposit}
use tiny_sp1_rollup.Stf.Commitment.{Abi}
use tiny_sp1_rollup.Stf.Merkle.{MerkleProof}
use tiny_sp1_rollup.Stf.Transition.{deposit_round, forced_round, tx_round, execute_transition}
use tiny_sp1_rollup.Core.Block.{PendingBlock}
use tiny_sp1_rollup.Core.External.{StateTree, Codec}
use tiny_sp1_rollup.Core.Executor.Unreadable.{DecodesWhole}
use tiny_sp1_rollup.Core.Prover.{
  ProofBundle, ProofPair, prove_forced, prove_tx, generate_proofs_for_block,
}
use tiny_sp1_rollup.Core.Prover.Bundle.{written, bundle_of, generate_proofs-Loops}
use tiny_sp1_rollup.Core.Prover.Agree.{generated_bundle_accepted}
use tiny_sp1_rollup.Core.Prover.Idle.{IsIdle, idle_bundle, idle_replay}
use tiny_sp1_rollup.Core.Prover.Hashes.{StoresHashes}
use tiny_sp1_rollup.Core.Prover.Refused.{
  IsFresh, IsFreshLive, froms, tos, deposits_none, forced_none, txs_none,
}

module _ (sha3 : Digest) (db : StateTree) (codec : Codec) (tree : db.Tree) where
  -- The root before the block is not the hash of a new account of a recipient of its deposits or of
  -- a sender that the loops do not skip.
  pub record IsUnnamed (block : PendingBlock) : Type 0 where
    pub recipients : All (λ (d : Deposit). IsFresh sha3 block.pre_state_root d.to) block.deposits
    pub forced_senders : All (IsFreshLive sha3 block.pre_state_root) block.forced_txs
    pub senders : All (λ (tx : Transaction). IsFresh sha3 block.pre_state_root tx.from) block.txs

  -- A bundle is generated, and the guest takes it.
  abbrev pub IsProvenBy : Digest → Abi → PendingBlock → Type 0
  IsProvenBy keccak abi block =
      (bundle : ProofBundle) × (generate_proofs_for_block sha3 db codec tree block ≡ ok bundle)
      × (result : Hash × Hash × Hash) × (execute_transition sha3 keccak abi block.pre_state_root
            block.txs block.deposits block.forced_txs (written bundle)
          ≡ ok result)

  -- The rounds of a transition with the bundle of a run.
  rounds_of :
      (keccak : Digest) (abi : Abi) (block : PendingBlock) (ds : List MerkleProof)
      (fs ts : List ProofPair) (bundle : ProofBundle) (result : Hash × Hash × Hash)
      → bundle_of ds fs ts ≡ bundle
      → execute_transition sha3 keccak abi block.pre_state_root block.txs block.deposits
          block.forced_txs
          (written bundle)
        ≡ ok result
      → (u v w : Hash) × (for_enumerate
            (deposit_round sha3 ds)
            0
            block.deposits
            block.pre_state_root
          ≡ ok u)
        × (for_enumerate (forced_round sha3 (froms fs) (tos fs)) 0 block.forced_txs u ≡ ok v)
        × (for_enumerate (tx_round sha3 (froms ts) (tos ts)) 0 block.txs v ≡ ok w)
  unfolding execute_transition
  rounds_of keccak abi block ds fs ts bundle result same taken =
      let (u, g₁, k₁) =
        bind_inv _ (for_enumerate (deposit_round sha3 ds) 0 block.deposits block.pre_state_root) (
          ap
            (λ (b : ProofBundle).
              execute_transition sha3 keccak abi block.pre_state_root block.txs block.deposits
                block.forced_txs (written b))
            same
          ∙ taken) in
      let (v, g₂, k₂) =
        bind_inv _ (for_enumerate (forced_round sha3 (froms fs) (tos fs)) 0 block.forced_txs u)
          k₁ in
      let (w, g₃, _) =
        bind_inv _ (for_enumerate (tx_round sha3 (froms ts) (tos ts)) 0 block.txs v) k₂ in
      (u, v, w, g₁, g₂, g₃)

  module _ (stores : StoresHashes db tree) (decodes : DecodesWhole codec) where
    proven-IsIdle :
        (keccak : Digest) (abi : Abi) (block : PendingBlock)
        → IsUnnamed block
        → IsProvenBy keccak abi block
        → IsIdle block
    proven-IsIdle keccak abi block unnamed (bundle, generated, result, taken) =
        let run = generate_proofs-Loops sha3 db codec tree block bundle generated in
        let (u₁, u₂, u₃, g₁, g₂, g₃) =
          rounds_of keccak abi block run.deposits run.forced run.txs bundle result run.bundle-eq
            taken in
        let (no_deposits, r₁, v₁) =
          deposits_none sha3 db codec tree stores decodes block.deposits block.pre_state_root
            run.after_deposits u₁ run.deposits unnamed.recipients run.deposits_loop g₁ in
        let (skipped, r₂, v₂) =
          forced_none sha3 db codec tree stores decodes block.forced_txs block.pre_state_root
            run.after_forced u₂ run.forced unnamed.forced_senders
            (ap (λ x. for_push (prove_forced sha3 db codec tree) x block.forced_txs) (sym r₁)
              ∙ run.forced_loop)
            (ap
                (for_enumerate (forced_round sha3 (froms run.forced) (tos run.forced)) 0
                  block.forced_txs)
                (sym v₁)
              ∙ g₂) in
        let (no_txs, r₃) =
          txs_none sha3 db codec tree stores decodes block.txs block.pre_state_root run.final_root
            u₃ run.txs unnamed.senders
            (ap (λ x. for_push (prove_tx sha3 db codec tree) x block.txs) (sym r₂) ∙ run.txs_loop)
            (ap (for_enumerate (tx_round sha3 (froms run.txs) (tos run.txs)) 0 block.txs) (sym v₂)
              ∙ g₃) in
        record {
          no_deposits = no_deposits;
          no_txs = no_txs;
          skipped = skipped;
          one_root =
              sym r₃ ∙ (bytes_eq_iff run.final_root block.post_state_root).0 run.root_matches;
        }

    -- Exactly the blocks that change nothing can be proven. Over a tree that stores hashes of 32
    -- bytes, with an account decoder that refuses less than 48, and for a block whose root before it
    -- is not the hash of a new account of a recipient of its deposits, of a sender of its
    -- transactions or of a sender other than the default address of its forced ones: proof
    -- generation returns a bundle that the guest takes if and only if the block has no deposit and
    -- no transaction, its forced transactions are all from the default address, and its two roots
    -- are the same.
    pub IsProvenBy-IsIdle :
        (keccak : Digest) (abi : Abi) (block : PendingBlock)
        → IsUnnamed block
        → IsProvenBy keccak abi block ↔ IsIdle block
    IsProvenBy-IsIdle keccak abi block unnamed = (
      proven-IsIdle keccak abi block unnamed,
      λ idle.
          let (generated, taken) =
            generated_bundle_accepted sha3 db codec tree keccak abi block (idle_bundle block)
              (idle_replay sha3 db codec tree block idle) in
          (idle_bundle block, generated, _, taken),
    )
