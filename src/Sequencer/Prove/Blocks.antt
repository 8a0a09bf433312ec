-- ===== src/Sequencer/Prove/Blocks.antt =====
-- The blocks of the queue in `prover_worker_loop` (crates/sequencer/src/main.rs), one after another.
use tiny_sp1_rollup.Base.{ℕ, Bool, List, [], ◌∷◌, Option}
use tiny_sp1_rollup.Base.Bytes.{Bytes}
use tiny_sp1_rollup.Stf.Digest.{Digest}
use tiny_sp1_rollup.Stf.Commitment.{Abi, PublicValues}
use tiny_sp1_rollup.Contract.{Gateway}
use tiny_sp1_rollup.Core.Block.{PendingBlock}
use tiny_sp1_rollup.Core.External.{StateTree, Codec}
use tiny_sp1_rollup.Sequencer.Prove.{Attempt, ProverState, process_and_prove_batch}
use tiny_sp1_rollup.Sequencer.Prove.Retries.{
  Verdict, proven_and_sent, given_up, crashed, out_of_fuel, max_retries, retry_loop,
}

-- A worker that has crashed does not go on.
abbrev pub unless_crashed : {S : Type 0} → (S → S) → S × Verdict → S
unless_crashed rest (s, crashed) = s
unless_crashed rest (s, proven_and_sent) = rest s
unless_crashed rest (s, given_up) = rest s
unless_crashed rest (s, out_of_fuel) = rest s

module _ (sha3 keccak : Digest) (abi : Abi) (gateway : Gateway) (db : StateTree) (codec : Codec)
    (decode : Bytes → Option PublicValues) where
  -- The retries of one block, `attempts n` being what the world gives after `n` failures.
  unfoldable pub prove_block :
      Bool → (ℕ → Attempt) → PendingBlock → ProverState db.Tree → ProverState db.Tree × Verdict
  unfolding retry_loop
  prove_block l1_enabled attempts block s =
      retry_loop
        (λ n.
          process_and_prove_batch sha3 keccak abi gateway db codec decode l1_enabled (attempts n)
            block)
        max_retries 0 s

  -- Block after block of the queue, until the worker ends.
  unfoldable pub prove_blocks :
      Bool
      → (PendingBlock → ℕ → Attempt)
      → List PendingBlock
      → ProverState db.Tree
      → ProverState db.Tree
  unfolding prove_block
  prove_blocks l1_enabled attempts [] s = s
  prove_blocks l1_enabled attempts (block ∷ blocks) s =
      unless_crashed (prove_blocks l1_enabled attempts blocks)
        (prove_block l1_enabled (attempts block) block s)
