-- ===== src/Sequencer/Prove/Poisoned.antt =====
-- The mutex around the state tree in crates/sequencer/src/main.rs: a panic under it stops the
-- prover's worker from proving anything.
use tiny_sp1_rollup.Base.{◌≡◌, refl, ℕ, Bool, true, false, Option, err, panic}
use tiny_sp1_rollup.Base.Bytes.{Bytes}
use tiny_sp1_rollup.Stf.Digest.{Digest}
use tiny_sp1_rollup.Stf.Commitment.{Abi, PublicValues}
use tiny_sp1_rollup.Contract.{Gateway}
use tiny_sp1_rollup.Core.Block.{PendingBlock}
use tiny_sp1_rollup.Core.External.{StateTree, Codec}
use tiny_sp1_rollup.Core.Prover.{generate_proofs_for_block}
use tiny_sp1_rollup.Sequencer.Prove.{
  Attempt, ProverState, state_lock_poisoned, join_error, proved, finish, process_and_prove_batch,
}
use tiny_sp1_rollup.Sequencer.Prove.Blocks.{prove_block}
use tiny_sp1_rollup.Sequencer.Prove.Retries.{given_up, after_attempt, retry_loop}

module _ (sha3 keccak : Digest) (abi : Abi) (gateway : Gateway) (db : StateTree) (codec : Codec)
    (decode : Bytes → Option PublicValues) where
  -- A poisoned mutex fails every attempt.
  poisoned_fails :
      (l1_enabled : Bool) (attempt : Attempt) (block : PendingBlock) (s : ProverState db.Tree)
      → s.poisoned ≡ true
      → process_and_prove_batch sha3 keccak abi gateway db codec decode l1_enabled attempt block s
        ≡ (s, err state_lock_poisoned)
  unfolding process_and_prove_batch proved finish
  poisoned_fails l1_enabled attempt block s held = rw held

  poisoned_gives_up :
      (l1_enabled : Bool) (attempts : ℕ → Attempt) (block : PendingBlock) (s : ProverState db.Tree)
      → s.poisoned ≡ true
      → prove_block sha3 keccak abi gateway db codec decode l1_enabled attempts block s
        ≡ (s, given_up)
  unfolding prove_block retry_loop after_attempt
  poisoned_gives_up l1_enabled attempts block s held = rw (
    poisoned_fails l1_enabled (attempts 0) block s held,
    poisoned_fails l1_enabled (attempts 1) block s held,
    poisoned_fails l1_enabled (attempts 2) block s held,
  )

  first_panics :
      (l1_enabled : Bool) (attempt : Attempt) (block : PendingBlock) (s : ProverState db.Tree)
      → s.poisoned ≡ false
      → generate_proofs_for_block sha3 db codec s.tree block ≡ panic
      → process_and_prove_batch sha3 keccak abi gateway db codec decode l1_enabled attempt block s
        ≡ (record s { poisoned = true }, err join_error)
  unfolding process_and_prove_batch proved finish
  first_panics l1_enabled attempt block s clean failed = simp (clean, failed)

  -- One panic stops all proving. If the generation of the proofs of a block panics under the mutex
  -- of the tree, as it does where the simulated root is not the block's, then the block is given up,
  -- and, the mutex being poisoned, so is every later block, whatever the prover and L1 do.
  pub panic_poisons :
      (l1_enabled : Bool) (attempts : ℕ → Attempt) (block : PendingBlock) (s : ProverState db.Tree)
      → s.poisoned ≡ false
      → generate_proofs_for_block sha3 db codec s.tree block ≡ panic
      → let s' = record s { poisoned = true } in
        (prove_block sha3 keccak abi gateway db codec decode l1_enabled attempts block s
          ≡ (s', given_up))
        × ((later : PendingBlock) (attempts' : ℕ → Attempt)
            → prove_block sha3 keccak abi gateway db codec decode l1_enabled attempts' later s'
              ≡ (s', given_up))
  unfolding prove_block retry_loop after_attempt
  panic_poisons l1_enabled attempts block s clean failed = (
    rw (
      first_panics l1_enabled (attempts 0) block s clean failed,
      poisoned_fails l1_enabled (attempts 1) block (record s { poisoned = true }) refl,
      poisoned_fails l1_enabled (attempts 2) block (record s { poisoned = true }) refl,
    ),
    λ later attempts'.
        poisoned_gives_up l1_enabled attempts' later (record s { poisoned = true }) refl,
  )
