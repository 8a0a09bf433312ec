-- ===== src/Sequencer/Worker/Submitted.antt =====
-- The submitted transactions of crates/sequencer/src/main.rs in every reachable system.
use tiny_sp1_rollup.Base.{◌≡◌, refl, List, [], ◌∷◌, ◌++◌}
use mathlib.Core.List.{append_assoc}
use tiny_sp1_rollup.Stf.Types.{Transaction}
use tiny_sp1_rollup.Core.Block.{PendingBlock}
use tiny_sp1_rollup.Sequencer.Worker.{
  Outside, Pc, sleeping, fetched, collected, rooted, executed, headed, drained, crashed, System,
  handle_submit_tx,
}
use tiny_sp1_rollup.Sequencer.Worker.Reach.{Other, attempts, removes, fails, calls, Reach}
use tiny_sp1_rollup.Sequencer.Worker.Mempool.{txs_of, IsCopied, Accounts, Counts, move-Counts}

module _ (o : Outside) where
  push-IsCopied :
      (pc : Pc) (mempool : List Transaction) (tx : Transaction)
      → IsCopied pc mempool
      → IsCopied pc (mempool ++ (tx ∷ []))
  push-IsCopied sleeping mempool tx h = tt
  push-IsCopied (fetched ds fs) mempool tx h = tt
  push-IsCopied (collected batch) mempool tx (later, e) =
      (later ++ (tx ∷ []), rw e (append_assoc batch.txs later (tx ∷ [])))
  push-IsCopied (rooted pre_root batch) mempool tx (later, e) =
      (later ++ (tx ∷ []), rw e (append_assoc batch.txs later (tx ∷ [])))
  push-IsCopied (executed n root pre_root batch) mempool tx (later, e) =
      (later ++ (tx ∷ []), rw e (append_assoc batch.txs later (tx ∷ [])))
  push-IsCopied (headed n root pre_root batch) mempool tx (later, e) =
      (later ++ (tx ∷ []), rw e (append_assoc batch.txs later (tx ∷ [])))
  push-IsCopied (drained block) mempool tx h = tt
  push-IsCopied crashed mempool tx h = tt

  push-Accounts :
      (pc : Pc) (mempool txs : List Transaction) (blocks : List PendingBlock) (tx : Transaction)
      → Accounts pc mempool txs blocks
      → Accounts pc (mempool ++ (tx ∷ [])) (txs ++ (tx ∷ [])) blocks
  push-Accounts pc mempool txs blocks tx h = record {
    held = h.held;
    is_held = h.is_held;
    is_copied = push-IsCopied pc mempool tx h.is_copied;
    all_there = rw (
      ← append_assoc h.held mempool (tx ∷ []),
      ← append_assoc (txs_of blocks) (h.held ++ mempool) (tx ∷ []),
      h.all_there,
    );
  }

  other-Accounts :
      (txs : List Transaction) (blocks : List PendingBlock) (s s' : System o)
      → Counts o txs blocks s
      → Other o s s'
      → Counts o txs blocks s'
  other-Accounts txs blocks s s' h (attempts attempt block) = h
  other-Accounts txs blocks s s' h (removes n) = h
  other-Accounts txs blocks s s' h (fails block) = h
  other-Accounts txs blocks s s' h (calls c call) = h

  -- No submitted transaction is lost or doubled while the worker runs. In every reachable system,
  -- however the handler, both workers and the contract have taken turns since a start with an empty
  -- mempool, the transactions of the stored blocks, then those of a block that is about to be
  -- stored, then the mempool are together the submitted transactions in their order; only a worker
  -- that has ended may hold others back. And while the worker executes its copy of the mempool, the
  -- copy is at the front of the mempool.
  pub Reach-Accounts :
      (first s : System o) (txs : List Transaction) (blocks : List PendingBlock)
      → first.pc ≡ sleeping
      → first.mempool ≡ []
      → Reach o first s txs blocks
      → Accounts s.pc s.mempool txs blocks
  unfolding handle_submit_tx
  Reach-Accounts first s txs blocks asleep empty Reach.starts =
      rw (asleep, empty) (record { held = []; is_held = refl; is_copied = tt; all_there = refl })
  Reach-Accounts first s txs blocks asleep empty (Reach.submits {s = s₀} {txs = txs₀} tx r) =
      push-Accounts s₀.pc s₀.mempool txs₀ blocks tx
        (Reach-Accounts first s₀ txs₀ blocks asleep empty r)
  Reach-Accounts first s txs blocks asleep empty
        (Reach.advances {s = s₀} {blocks = blocks₀} bridge r) =
      move-Counts o txs blocks₀ bridge s₀.pc s₀ (Reach-Accounts first s₀ txs blocks₀ asleep empty r)
  Reach-Accounts first s txs blocks asleep empty (Reach.moves {s = s₀} r other) =
      other-Accounts txs blocks s₀ s (Reach-Accounts first s₀ txs blocks asleep empty r) other
