-- ===== src/Sequencer/Worker/Reach.antt =====
-- The sequencer's tasks (crates/sequencer/src/main.rs) interleaved in any order, with what has been
-- submitted and which blocks have been stored.
use tiny_sp1_rollup.Base.{ℕ, List, [], ◌∷◌, ◌++◌}
use tiny_sp1_rollup.Stf.Types.{Transaction}
use tiny_sp1_rollup.Contract.{Contract}
use tiny_sp1_rollup.Contract.Invariant.{Call}
use tiny_sp1_rollup.Core.Block.{PendingBlock}
use tiny_sp1_rollup.Sequencer.L1.{Bridge}
use tiny_sp1_rollup.Sequencer.Prove.{Attempt, ProverState, process_and_prove_batch}
use tiny_sp1_rollup.Sequencer.Queue.{push_failed, remove_pending}
use tiny_sp1_rollup.Sequencer.Worker.{
  Outside, Pc, sleeping, drained, System, handle_submit_tx, advance,
}

-- The block that a move from one place to another has stored.
abbrev pub stored : Pc → Pc → List PendingBlock
stored (drained block) sleeping = block ∷ []
stored _ _ = []

module _ (o : Outside) where
  -- What the prover's worker sees, and what it leaves.
  abbrev pub prover_state : System o → ProverState o.db.Tree
  prover_state s = record {
    tree = s.tree;
    poisoned = s.poisoned;
    proven = s.proven;
    contract = s.contract;
  }

  abbrev pub after_prover : System o → ProverState o.db.Tree → System o
  after_prover s p = record s {
    tree = p.tree;
    poisoned = p.poisoned;
    proven = p.proven;
    contract = p.contract;
  }

  abbrev pub attempted : Attempt → PendingBlock → System o → System o
  attempted attempt block s =
      after_prover s
        (process_and_prove_batch o.sha3 o.keccak o.abi o.gateway o.db o.codec o.decode o.l1_enabled
          attempt block (prover_state s)).0

  -- A move of another task than the optimistic worker and the handler: an attempt of the prover's
  -- worker, its writes to the queue, or a call of the contract.
  pub data Other (s : System o) : System o → Type 0 where
    attempts : (attempt : Attempt) (block : PendingBlock) → Other s (attempted attempt block s)
    removes : (n : ℕ) → Other s (record s { queue = (remove_pending o.rocks s.queue n).0 })
    fails :
        (block : PendingBlock)
        → Other s (record s { queue = (push_failed o.rocks o.block_codec s.queue block).0 })
    calls :
        (c : Contract)
        → Call o.keccak o.abi o.gateway s.contract c
        → Other s (record s { contract = c })

  -- From a start, in any order: the system, the submitted transactions, and the stored blocks, the
  -- latest last.
  pub data Reach (first : System o) : System o → List Transaction → List PendingBlock → Type 0 where
    starts : Reach first first [] []
    submits :
        {s : System o} {txs : List Transaction} {blocks : List PendingBlock} (tx : Transaction)
        → Reach first s txs blocks
        → Reach first (handle_submit_tx o tx s) (txs ++ (tx ∷ [])) blocks
    advances :
        {s : System o} {txs : List Transaction} {blocks : List PendingBlock} (bridge : Bridge)
        → Reach first s txs blocks
        → Reach first (advance o bridge s) txs (blocks ++ stored s.pc (advance o bridge s).pc)
    moves :
        {s s' : System o} {txs : List Transaction} {blocks : List PendingBlock}
        → Reach first s txs blocks
        → Other s s'
        → Reach first s' txs blocks
