-- ===== src/Tests/PipelineTests.antt =====
-- The theorem on the whole sequencer at a round of the optimistic worker, after which the prover's
-- worker looks at the queue.
use tiny_sp1_rollup.Base.{◌≡◌, ◌≢◌, refl, subst, List, [], ◌∷◌, ◌++◌, Option, none, some, ok, arith}
use tiny_sp1_rollup.Base.Bytes.{bytes_eq, to_be_bytes}
use tiny_sp1_rollup.Stf.Digest.{default}
use tiny_sp1_rollup.Core.Block.{PendingBlock}
use tiny_sp1_rollup.Sequencer.L1.Fetched.{bridge_of}
use tiny_sp1_rollup.Sequencer.Queue.{peek_pending, commit_optimistic_block}
use tiny_sp1_rollup.Sequencer.Queue.Counter.{same_cf, put_of}
use tiny_sp1_rollup.Sequencer.Queue.KeyOrder.{leb_bytes}
use tiny_sp1_rollup.Sequencer.Queue.Pending.{IsQueue}
use tiny_sp1_rollup.Sequencer.Worker.{System, crashed, advance, handle_submit_tx}
use tiny_sp1_rollup.Sequencer.Worker.Reach.{stored}
use tiny_sp1_rollup.Sequencer.Worker.Chain.{IsChain}
use tiny_sp1_rollup.Sequencer.Worker.Pipeline.{Runs}
use tiny_sp1_rollup.Sequencer.Worker.InOrder.{StartsAt, IsFresh, Runs-InOrder}
use tiny_sp1_rollup.Tests.Data.{payment}
use tiny_sp1_rollup.Tests.BlockBytes.{
  sample_blocks, encode_block, decode_block, sample_blocks-RoundTrips,
}
use tiny_sp1_rollup.Tests.QueueTests.{sample_rocks, sample_stores, empty, least}
use tiny_sp1_rollup.Tests.RoundTests.{sample_keys}
use tiny_sp1_rollup.Tests.FifoTests.{start, sample_order}
use tiny_sp1_rollup.Tests.WorkerTests.{
  outside, waiting, started, with_tx, with_l1, copied, busy, reading, run, ahead, first_block,
  unstored, asleep, later_tx, fetch_runs, copy_runs, head_runs, execute_runs, write_runs,
  drain_runs, store_runs,
}

step :
    {added removed : List PendingBlock} {shown : Option PendingBlock} (s s' : System outside)
    → advance outside (bridge_of waiting) s ≡ s'
    → s'.pc ≢ crashed
    → Runs outside started s added removed shown
    → Runs outside started s' (added ++ stored s.pc s'.pc) removed shown
step {added} {removed} {shown} s s' e up r =
    subst (λ x. x.pc ≢ crashed → Runs outside started x (added ++ stored s.pc x.pc) removed shown) e
      (Runs.advances (bridge_of waiting) r) up

asleep-Runs : Runs outside started asleep (first_block ∷ []) [] none
unfolding handle_submit_tx
asleep-Runs =
    step unstored asleep store_runs (λ e. cc e)
      (step ahead unstored drain_runs (λ e. cc e)
        (step run ahead write_runs (λ e. cc e)
          (step reading run execute_runs (λ e. cc e)
            (step busy reading head_runs (λ e. cc e)
              (Runs.submits later_tx (
                step with_l1 copied copy_runs (λ e. cc e)
                  (step with_tx with_l1 fetch_runs (λ e. cc e)
                    (Runs.submits payment Runs.starts))))))))

block_seen : peek_pending sample_rocks sample_blocks asleep.queue ≡ ok (some first_block)
unfolding peek_pending sample_rocks sample_blocks least put_of empty same_cf bytes_eq to_be_bytes
    leb_bytes commit_optimistic_block encode_block decode_block
block_seen = refl

started-IsFresh : IsFresh outside default 0 started
started-IsFresh = record {
  asleep = refl;
  head = refl;
  counter = refl;
  headroot = refl;
  queue = start;
}

Runs-InOrder_example :
    (rest : List PendingBlock) × IsQueue sample_rocks sample_blocks asleep.queue rest
    × (first_block ∷ [] ≡ [] ++ rest)
    × IsChain default 0 (first_block ∷ [])
    × StartsAt default 0 (some first_block)
Runs-InOrder_example =
    Runs-InOrder outside default 0 started started-IsFresh sample_stores sample_keys sample_order
      sample_blocks-RoundTrips asleep (omega arith)
      (Runs.peeks (some first_block) asleep-Runs block_seen)
