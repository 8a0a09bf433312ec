-- ===== src/Sequencer/Prove/Round/Moved.antt =====
-- Where a block goes in a round of `prover_worker_loop` (crates/sequencer/src/main.rs): it leaves
-- the pending blocks, for the contract or for the failed blocks.
use tiny_sp1_rollup.Base.{
  ◌≡◌, refl, ap, sym, subst, ◌∙◌, ℕ, true, String, Option, none, some, Outcome, ok, err, panic,
  bind_inv, ok_or_found, second, ◌⊎◌, inl, inr,
}
use tiny_sp1_rollup.Base.Bytes.{Bytes, bytes_eq_refl}
use tiny_sp1_rollup.Stf.Digest.{Digest}
use tiny_sp1_rollup.Stf.Commitment.{Abi, PublicValues}
use tiny_sp1_rollup.Contract.{Gateway}
use tiny_sp1_rollup.Core.Block.{PendingBlock}
use tiny_sp1_rollup.Core.External.{StateTree, Codec}
use tiny_sp1_rollup.Sequencer.Queue.{
  pending_blocks, failed_blocks, Rocks, BlockCodec, handle, peek_pending, remove_pending,
  push_failed,
}
use tiny_sp1_rollup.Sequencer.Queue.Counter.{same_cf, writing_inv}
use tiny_sp1_rollup.Sequencer.Queue.Keys.{StoresKeys, key_of}
use tiny_sp1_rollup.Sequencer.Prove.{Attempt, ProverState, process_and_prove_batch}
use tiny_sp1_rollup.Sequencer.Prove.Blocks.{prove_block}
use tiny_sp1_rollup.Sequencer.Prove.Retries.{
  Verdict, proven_and_sent, given_up, crashed, out_of_fuel, retry_loop-Retried, sent_attempt,
}
use tiny_sp1_rollup.Sequencer.Prove.Settled.{IsHonest, process_and_prove_batch-IsSettled}
use tiny_sp1_rollup.Sequencer.Prove.Round.{
  went_on, last_write, after_push, write_queue, round_of, prover_round,
}

module _ (rocks : Rocks) (block_codec : BlockCodec) (laws : StoresKeys rocks) where
  -- The block is in the failed blocks.
  abbrev pub HasFailed : PendingBlock → rocks.Db → Type 0
  HasFailed block queue =
      (value : Bytes) × (block_codec.serialize block ≡ some value)
      × (rocks.get_cf queue failed_blocks (key_of block) ≡ ok (some value))

  last_write_inv :
      (r : rocks.Db × Outcome String (Unit {0})) (queue' : rocks.Db)
      → last_write rocks block_codec r ≡ (queue', went_on)
      → r ≡ (queue', ok tt)
  last_write_inv (queue, ok u) queue' e = λ i. ((e i).0, ok tt)
  last_write_inv (queue, err x) queue' e = cc (ap second e)
  last_write_inv (queue, panic) queue' e = cc (ap second e)

  removed :
      (block : PendingBlock) (queue queue' : rocks.Db)
      → remove_pending rocks queue block.block_number ≡ (queue', ok tt)
      → (rocks.get_cf queue' pending_blocks (key_of block) ≡ ok none)
        × (rocks.get_cf queue' failed_blocks (key_of block)
            ≡ rocks.get_cf queue failed_blocks (key_of block))
  unfolding remove_pending same_cf
  removed block queue queue' e =
      let (u, opened, done) =
        writing_inv rocks queue queue' _
          (handle rocks queue pending_blocks "remove_pending pending_cf err")
          (λ _. rocks.delete_cf queue pending_blocks (key_of block)) e in
      (
        laws.get_cf-delete_cf queue queue' pending_blocks (key_of block) done pending_blocks
              (key_of block)
            ∙ rw (bytes_eq_refl (key_of block)),
        laws.get_cf-delete_cf queue queue' pending_blocks (key_of block) done failed_blocks
            (key_of block),
      )

  pushed :
      (block : PendingBlock) (queue queue' : rocks.Db)
      → push_failed rocks block_codec queue block ≡ (queue', ok tt)
      → HasFailed block queue'
  unfolding push_failed same_cf
  pushed block queue queue' e =
      let (value, prepared, done) = writing_inv rocks queue queue' _ _ _ e in
      let (_, _, found) = bind_inv _ (handle rocks queue failed_blocks _) prepared in
      (
        value,
        ok_or_found (block_codec.serialize block) _ value found,
        laws.get_cf-put_cf queue queue' failed_blocks (key_of block) value done failed_blocks
              (key_of block)
            ∙ rw (bytes_eq_refl (key_of block)),
      )

  -- A given-up block is in the failed blocks and not in the pending ones.
  given_up_moved :
      (block : PendingBlock) (r : rocks.Db × Outcome String (Unit {0})) (queue queue' : rocks.Db)
      → push_failed rocks block_codec queue block ≡ r
      → after_push rocks block_codec block.block_number r ≡ (queue', went_on)
      → (rocks.get_cf queue' pending_blocks (key_of block) ≡ ok none) × HasFailed block queue'
  given_up_moved block (between, ok u) queue queue' p e =
      let (value, encoded, stored) = pushed block queue between p in
      let (gone, kept) = removed block between queue' (last_write_inv _ queue' e) in
      (gone, (value, encoded, kept ∙ stored))
  given_up_moved block (between, err x) queue queue' p e = cc (ap second e)
  given_up_moved block (between, panic) queue queue' p e = cc (ap second e)

  -- A block of which the writes are done: it is not pending, and, if it was given up, it is failed.
  written_moved :
      (verdict : Verdict) (block : PendingBlock) (queue queue' : rocks.Db)
      → write_queue rocks block_codec verdict block queue ≡ (queue', went_on)
      → (rocks.get_cf queue' pending_blocks (key_of block) ≡ ok none)
        × ((verdict ≡ proven_and_sent) ⊎ HasFailed block queue')
  unfolding write_queue
  written_moved proven_and_sent block queue queue' e =
      ((removed block queue queue' (last_write_inv _ queue' e)).0, inl refl)
  written_moved given_up block queue queue' e =
      let (gone, failed) = given_up_moved block _ queue queue' refl e in (gone, inr failed)
  written_moved crashed block queue queue' e = cc (ap second e)
  written_moved out_of_fuel block queue queue' e = cc (ap second e)

  module _ (sha3 keccak : Digest) (abi : Abi) (gateway : Gateway) (db : StateTree) (codec : Codec)
      (decode : Bytes → Option PublicValues) where
    -- The contract and the proven head stand at the end of the block.
    abbrev pub HasSettled : PendingBlock → ProverState db.Tree → Type 0
    HasSettled block s =
        (s.contract.state_root ≡ block.post_state_root) × (s.proven ≡ block.post_state_root)

    sent-HasSettled :
        (attempts : ℕ → Attempt)
        → ((n : ℕ) → IsHonest sha3 keccak abi gateway decode (attempts n))
        → (block : PendingBlock) (s : ProverState db.Tree)
        → (prove_block sha3 keccak abi gateway db codec decode true attempts block s).1
          ≡ proven_and_sent
        → HasSettled block
            (prove_block sha3 keccak abi gateway db codec decode true attempts block s).0
    unfolding prove_block
    sent-HasSettled attempts honest block s e =
        let run = λ (n : ℕ).
          process_and_prove_batch sha3 keccak abi gateway db codec decode true (attempts n) block in
        let (n, before, done) = sent_attempt run (retry_loop-Retried run s).0 e in
        let (_, at, head) =
          process_and_prove_batch-IsSettled sha3 keccak abi gateway db codec decode (attempts n)
            (honest n) block before _ done in
        (at, head)

    -- No block is lost by the prover's worker. If the queue shows a block, the provers are honest,
    -- L1 is enabled, and the round goes on, then the block's key is no longer in the pending blocks;
    -- and the contract and the proven head stand at the block's post-state root, or the block is
    -- in the failed blocks.
    pub prover_round-HasMoved :
        (attempts : PendingBlock → ℕ → Attempt)
        → ((b : PendingBlock) (n : ℕ) → IsHonest sha3 keccak abi gateway decode (attempts b n))
        → (block : PendingBlock) (queue queue' : rocks.Db) (s s' : ProverState db.Tree)
        → peek_pending rocks block_codec queue ≡ ok (some block)
        → prover_round rocks block_codec sha3 keccak abi gateway db codec decode true attempts queue
            s
          ≡ (queue', s', went_on)
        → (rocks.get_cf queue' pending_blocks (key_of block) ≡ ok none)
          × (HasSettled block s' ⊎ HasFailed block queue')
    unfolding prover_round
    prover_round-HasMoved attempts honest block queue queue' s s' shown e =
        let after =
          prove_block sha3 keccak abi gateway db codec decode true (attempts block) block s in
        let ran : (
          (write_queue rocks block_codec after.1 block queue).0,
          after.0,
          (write_queue rocks block_codec after.1 block queue).1,
        )
            ≡ (queue', s', went_on) =
          ap
            (λ m.
              round_of rocks block_codec sha3 keccak abi gateway db codec decode true attempts m
                queue s)
            (sym shown)
          ∙ e in
        let (gone, went) = written_moved after.1 block queue queue' (λ i. ((ran i).0, (ran i).2)) in
        let left : after.0 ≡ s' = λ i. (ran i).1 in
        (
          gone,
          elim went [
            | inl sent ↦ inl (
                subst (HasSettled block) left
                  (sent-HasSettled (attempts block) (honest block) block s sent))
            | inr failed ↦ inr failed
          ],
        )
