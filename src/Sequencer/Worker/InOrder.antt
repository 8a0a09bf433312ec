-- ===== src/Sequencer/Worker/InOrder.antt =====
-- The prover's worker of crates/sequencer/src/main.rs gets the blocks of the chain in its order.
use tiny_sp1_rollup.Base.{
  ◌≡◌, inl, inr, ◌∙◌, ℕ, ◌+◌, ◌<◌, List, [], ◌∷◌, ◌++◌, Option, none, some, length, arith,
  length-append,
}
use mathlib.Core.List.{append-nil}
use tiny_sp1_rollup.Base.Bytes.{u64_mod}
use tiny_sp1_rollup.Stf.Digest.{Hash}
use tiny_sp1_rollup.Core.Block.{PendingBlock}
use tiny_sp1_rollup.Sequencer.Queue.Counter.{StoresBatches}
use tiny_sp1_rollup.Sequencer.Queue.Keys.{StoresKeys, IteratesInOrder}
use tiny_sp1_rollup.Sequencer.Queue.Pending.{RoundTrips, IsQueue, IsFront}
use tiny_sp1_rollup.Sequencer.Queue.Fifo.{Run, Run-Remaining}
use tiny_sp1_rollup.Sequencer.Worker.{
  Outside, sleeping, System, handle_submit_tx, advance, next_number,
}
use tiny_sp1_rollup.Sequencer.Worker.Reach.{stored}
use tiny_sp1_rollup.Sequencer.Worker.Chain.{
  IsChain, last_root, number_after, Follows, Reach-Follows,
}
use tiny_sp1_rollup.Sequencer.Worker.Pipeline.{
  Runs, starts, submits, advances, calls, peeks, attempts, removes, fails, Runs-Reach,
}
use tiny_sp1_rollup.Sequencer.Worker.QueueSteps.{
  QueueStep, move-QueueStep, number_after-count, IsChain-IsBelow,
}

-- A chain after its first part.
IsChain-behind :
    (root : Hash) (n : ℕ) (front behind : List PendingBlock)
    → IsChain root n (front ++ behind)
    → IsChain (last_root root front) (number_after n front) behind
IsChain-behind root n [] behind chain = chain
IsChain-behind root n (b ∷ front) behind (_, _, chain) =
    IsChain-behind b.post_state_root (next_number n) front behind chain

-- The block starts at the root and has the number.
abbrev pub StartsAt : Hash → ℕ → Option PendingBlock → Type 0
StartsAt root n none = Unit
StartsAt root n (some b) = (b.pre_state_root ≡ root) × (b.block_number ≡ n)

module _ (o : Outside) where
  -- A start without pending blocks, with the heads at a root and the counter at a number.
  pub record IsFresh (root : Hash) (n : ℕ) (first : System o) : Type 0 where
    pub asleep : first.pc ≡ sleeping
    pub head : first.optimistic ≡ root
    pub counter : first.block_counter ≡ n
    pub headroot : first.headroot ≡ some root
    pub queue : IsQueue o.rocks o.block_codec first.queue []

  module _ (root : Hash) (n : ℕ) (first : System o) (fresh : IsFresh root n first) where
    follows :
        (s : System o) {added removed : List PendingBlock} {shown : Option PendingBlock}
        → Runs o first s added removed shown
        → Follows o root n s added
    follows s {added = added} run =
        let (txs, r) = Runs-Reach o first s run in
        Reach-Follows o root n first s txs added fresh.asleep fresh.head fresh.counter
          fresh.headroot r

    step-Run :
        (s s' : System o) (added removed : List PendingBlock) (shown : Option PendingBlock)
        → Run o.rocks o.block_codec first.queue s.queue added removed shown
        → Follows o root n s added
        → n + length (added ++ stored s.pc s'.pc) < u64_mod
        → QueueStep o s.pc s s'
        → Run o.rocks o.block_codec first.queue s'.queue (added ++ stored s.pc s'.pc) removed shown
    step-Run s s' added removed shown run f h (inl (nothing, same)) =
        rw (nothing, append-nil added, same) run
    step-Run s s' added removed shown run f h (inr (b, at, one, done)) =
        let there = rw at at f.at in
        let few : n + length added < u64_mod =
          omega (arith, h, length-append added (stored s.pc s'.pc)) in
        let number = there.1 ∙ number_after-count n added few in
        rw one (
          Run.commits b (next_number b.block_number) run (omega (arith, number, few))
            (IsChain-IsBelow root n b.block_number added f.chain few (omega (arith, number))) done)

    front-StartsAt :
        (removed rest : List PendingBlock) (shown : Option PendingBlock)
        → IsChain root n (removed ++ rest)
        → IsFront o.rocks o.block_codec shown rest
        → StartsAt (last_root root removed) (number_after n removed) shown
    front-StartsAt removed rest none chain front = tt
    front-StartsAt removed rest (some b) chain (behind, e) =
        let (starts_at, number, _) = IsChain-behind root n removed (b ∷ behind) (rw e at chain) in
        (starts_at, number)

    -- The queue goes through a run of its own.
    Runs-Run :
        (s : System o) {added removed : List PendingBlock} {shown : Option PendingBlock}
        → n + length added < u64_mod
        → Runs o first s added removed shown
        → Run o.rocks o.block_codec first.queue s.queue added removed shown
    unfolding handle_submit_tx
    Runs-Run s h starts = Run.starts
    Runs-Run s h (submits {s = s₀} tx run) = Runs-Run s₀ h run
    Runs-Run s h
          (advances {s = s₀} {added = added} {removed = removed} {shown = shown} bridge run up) =
        let few : n + length added < u64_mod =
          omega (arith, h, length-append added (stored s₀.pc (advance o bridge s₀).pc)) in
        step-Run s₀ (advance o bridge s₀) added removed shown (Runs-Run s₀ few run) (follows s₀ run)
          h (move-QueueStep o bridge s₀.pc s₀ up)
    Runs-Run s h (calls {s = s₀} c run call) = Runs-Run s₀ h run
    Runs-Run s h (peeks seen run e) = Run.peeks seen (Runs-Run s h run) e
    Runs-Run s h (attempts {s = s₀} attempt b run) = Runs-Run s₀ h run
    Runs-Run s h (removes {s = s₀} b run e) = Run.removes b (Runs-Run s₀ h run) e
    Runs-Run s h (fails {s = s₀} b run e) = Run.fails b (Runs-Run s₀ h run) e

    module _ (batches : StoresBatches o.rocks) (keys : StoresKeys o.rocks)
        (order : IteratesInOrder o.rocks) (trips : RoundTrips o.block_codec) where
      -- The prover's worker gets the blocks of one chain, in its order. Let the sequencer start
      -- with no pending block and let its tasks take turns in any order, as long as the optimistic
      -- worker has not ended, with every write of the queue done, with the prover's worker
      -- attempting, removing or noting as failed only what it has seen, and with the number of the
      -- start plus the count of the stored blocks below 2^64. Then the stored blocks are the
      -- removed blocks followed by those pending, in this order; they are a chain of roots and
      -- numbers from the start; and the block that the prover's worker has, if any, starts at the
      -- root where the last removed block ends and has the number after it.
      pub Runs-InOrder :
          (s : System o) {added removed : List PendingBlock} {shown : Option PendingBlock}
          → n + length added < u64_mod
          → Runs o first s added removed shown
          → (rest : List PendingBlock) × IsQueue o.rocks o.block_codec s.queue rest
            × (added ≡ removed ++ rest)
            × IsChain root n added
            × StartsAt (last_root root removed) (number_after n removed) shown
      Runs-InOrder s {added = added} {removed = removed} {shown = shown} h run =
          let f = follows s run in
          let (rest, q, split, front) =
            Run-Remaining o.rocks o.block_codec batches keys order trips first.queue s.queue
              fresh.queue (Runs-Run s h run) in
          (rest, q, split, f.chain, front-StartsAt removed rest shown (rw split at f.chain) front)
