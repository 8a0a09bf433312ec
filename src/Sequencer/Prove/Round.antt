-- ===== src/Sequencer/Prove/Round.antt =====
-- A round of the outer loop of `prover_worker_loop` (crates/sequencer/src/main.rs): the block that
-- the queue shows, its proof with the retries, and the writes to the queue, each of which is the
-- last try of its `retry`.
pub mod Moved
pub mod Drained
use tiny_sp1_rollup.Base.{ℕ, Bool, String, Option, none, some, Outcome, ok, err, panic}
use tiny_sp1_rollup.Base.Bytes.{Bytes}
use tiny_sp1_rollup.Stf.Digest.{Digest}
use tiny_sp1_rollup.Stf.Commitment.{Abi, PublicValues}
use tiny_sp1_rollup.Contract.{Gateway}
use tiny_sp1_rollup.Core.Block.{PendingBlock}
use tiny_sp1_rollup.Core.External.{StateTree, Codec}
use tiny_sp1_rollup.Sequencer.Queue.{Rocks, BlockCodec, peek_pending, remove_pending, push_failed}
use tiny_sp1_rollup.Sequencer.Prove.{Attempt, ProverState}
use tiny_sp1_rollup.Sequencer.Prove.Blocks.{prove_block}
use tiny_sp1_rollup.Sequencer.Prove.Retries.{
  Verdict, proven_and_sent, given_up, crashed, out_of_fuel,
}

-- How a round ends: by `continue` with no block, after a block, or with the worker's task.
pub data Ending : Type 0 where
  idle went_on ended : Ending

module _ (rocks : Rocks) (block_codec : BlockCodec) where
  -- `retry(…).await?` of the last write
  abbrev pub last_write : rocks.Db × Outcome String (Unit {0}) → rocks.Db × Ending
  last_write (queue, ok u) = (queue, went_on)
  last_write (queue, err e) = (queue, ended)
  last_write (queue, panic) = (queue, ended)

  -- The block is removed where it has been added to the failed ones.
  abbrev pub after_push : ℕ → rocks.Db × Outcome String (Unit {0}) → rocks.Db × Ending
  after_push block_number (queue, ok u) = last_write (remove_pending rocks queue block_number)
  after_push block_number (queue, err e) = (queue, ended)
  after_push block_number (queue, panic) = (queue, ended)

  -- The writes to the queue after a block.
  unfoldable pub write_queue : Verdict → PendingBlock → rocks.Db → rocks.Db × Ending
  write_queue proven_and_sent block queue =
      last_write (remove_pending rocks queue block.block_number)
  write_queue given_up block queue =
      after_push block.block_number (push_failed rocks block_codec queue block)
  write_queue crashed block queue = (queue, ended)
  write_queue out_of_fuel block queue = (queue, ended)

  module _ (sha3 keccak : Digest) (abi : Abi) (gateway : Gateway) (db : StateTree) (codec : Codec)
      (decode : Bytes → Option PublicValues) (l1_enabled : Bool) where
    abbrev pub round_of :
        (PendingBlock → ℕ → Attempt)
        → Outcome String (Option PendingBlock)
        → rocks.Db
        → ProverState db.Tree
        → rocks.Db × ProverState db.Tree × Ending
    round_of attempts (ok none) queue s = (queue, s, idle)
    round_of attempts (ok (some block)) queue s =
        let (s', verdict) =
          prove_block sha3 keccak abi gateway db codec decode l1_enabled (attempts block) block s in
        let (queue', ending) = write_queue verdict block queue in (queue', s', ending)
    round_of attempts (err e) queue s = (queue, s, ended)
    round_of attempts panic queue s = (queue, s, ended)

    -- One round, from `peek_pending` on.
    unfoldable pub prover_round :
        (PendingBlock → ℕ → Attempt)
        → rocks.Db
        → ProverState db.Tree
        → rocks.Db × ProverState db.Tree × Ending
    unfolding write_queue
    prover_round attempts queue s = round_of attempts (peek_pending rocks block_codec queue) queue s
