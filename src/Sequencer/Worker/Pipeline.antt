-- ===== src/Sequencer/Worker/Pipeline.antt =====
-- The whole sequencer of crates/sequencer/src/main.rs with its prover's worker taking blocks from the
-- queue: the tasks interleaved, each write of the queue done.
use tiny_sp1_rollup.Base.{◌≡◌, ◌≢◌, subst, List, [], ◌∷◌, ◌++◌, Option, none, some, ok}
use tiny_sp1_rollup.Stf.Types.{Transaction}
use tiny_sp1_rollup.Contract.{Contract}
use tiny_sp1_rollup.Contract.Invariant.{Call}
use tiny_sp1_rollup.Core.Block.{PendingBlock}
use tiny_sp1_rollup.Sequencer.L1.{Bridge}
use tiny_sp1_rollup.Sequencer.Prove.{Attempt}
use tiny_sp1_rollup.Sequencer.Queue.{peek_pending, remove_pending, push_failed}
use tiny_sp1_rollup.Sequencer.Worker.{Outside, crashed, System, handle_submit_tx, advance}
use tiny_sp1_rollup.Sequencer.Worker.Reach.{stored, Other, Reach, attempted}

module _ (o : Outside) where
  -- From a start, in any order: the system, the blocks stored, the blocks that the prover's worker
  -- has removed, and the block that it has. The optimistic worker has not ended, and the prover's
  -- worker looks at the queue and then attempts, removes or notes as failed what it saw.
  pub data Runs (first : System o)
      : System o → List PendingBlock → List PendingBlock → Option PendingBlock → Type 0 where
    starts : Runs first first [] [] none
    submits :
        {s : System o} {added removed : List PendingBlock} {shown : Option PendingBlock}
        (tx : Transaction)
        → Runs first s added removed shown
        → Runs first (handle_submit_tx o tx s) added removed shown
    advances :
        {s : System o} {added removed : List PendingBlock} {shown : Option PendingBlock}
        (bridge : Bridge)
        → Runs first s added removed shown
        → (advance o bridge s).pc ≢ crashed
        → Runs first
            (advance o bridge s)
            (added ++ stored s.pc (advance o bridge s).pc)
            removed
            shown
    calls :
        {s : System o} {added removed : List PendingBlock} {shown : Option PendingBlock}
        (c : Contract)
        → Runs first s added removed shown
        → Call o.keccak o.abi o.gateway s.contract c
        → Runs first (record s { contract = c }) added removed shown
    peeks :
        {s : System o} {added removed : List PendingBlock} {shown : Option PendingBlock}
        (seen : Option PendingBlock)
        → Runs first s added removed shown
        → peek_pending o.rocks o.block_codec s.queue ≡ ok seen
        → Runs first s added removed seen
    attempts :
        {s : System o} {added removed : List PendingBlock} (attempt : Attempt) (b : PendingBlock)
        → Runs first s added removed (some b)
        → Runs first (attempted o attempt b s) added removed (some b)
    removes :
        {s : System o} {added removed : List PendingBlock} {queue : o.rocks.Db} (b : PendingBlock)
        → Runs first s added removed (some b)
        → remove_pending o.rocks s.queue b.block_number ≡ (queue, ok tt)
        → Runs first (record s { queue = queue }) added (removed ++ (b ∷ [])) none
    fails :
        {s : System o} {added removed : List PendingBlock} {queue : o.rocks.Db} (b : PendingBlock)
        → Runs first s added removed (some b)
        → push_failed o.rocks o.block_codec s.queue b ≡ (queue, ok tt)
        → Runs first (record s { queue = queue }) added removed (some b)

  -- Such a run is one of the interleavings that the chain is proved for.
  pub Runs-Reach :
      (first s : System o) {added removed : List PendingBlock} {shown : Option PendingBlock}
      → Runs first s added removed shown
      → (txs : List Transaction) × Reach o first s txs added
  Runs-Reach first s starts = ([], Reach.starts)
  Runs-Reach first s (submits {s = s₀} tx run) =
      let (txs, r) = Runs-Reach first s₀ run in (txs ++ (tx ∷ []), Reach.submits tx r)
  Runs-Reach first s (advances {s = s₀} bridge run up) =
      let (txs, r) = Runs-Reach first s₀ run in (txs, Reach.advances bridge r)
  Runs-Reach first s (calls {s = s₀} c run call) =
      let (txs, r) = Runs-Reach first s₀ run in (txs, Reach.moves r (Other.calls c call))
  Runs-Reach first s (peeks seen run e) = Runs-Reach first s run
  Runs-Reach first s (attempts {s = s₀} attempt b run) =
      let (txs, r) = Runs-Reach first s₀ run in (txs, Reach.moves r (Other.attempts attempt b))
  Runs-Reach first s {added = added} (removes {s = s₀} b run e) =
      let (txs, r) = Runs-Reach first s₀ run in
      (
        txs,
        subst (λ q. Reach o first (record s₀ { queue = q }) txs added) (λ i. (e i).0)
            (Reach.moves r (Other.removes b.block_number)),
      )
  Runs-Reach first s {added = added} (fails {s = s₀} b run e) =
      let (txs, r) = Runs-Reach first s₀ run in
      (
        txs,
        subst (λ q. Reach o first (record s₀ { queue = q }) txs added) (λ i. (e i).0)
            (Reach.moves r (Other.fails b)),
      )
